-- ===== src/Evidence/Outcome.antt =====
-- What an upload of a capture may end in.
use z_shield.Prelude.{
  ℕ, ◌≡◌, ◌≢◌, refl, sym, ap, ap₂, ◌∙◌, inl, inr, true, Option, none, some, List, arith, Bool-cases,
  Option-cases,
}
use z_shield.Text.{Text, codes}
use z_shield.Table.{update_where, find_where, find_where-holds, find_where-update}
use z_shield.Crypto.{Bytes, Node}
use z_shield.Tenant.{Result, ok, with_tenant, settle, is_id}
use z_shield.Evidence.Multipart.{ParsedImage, parse_upload, sniff}
use z_shield.Evidence.Multipart.Bounds.{Contains, parse_upload-Contains}
use z_shield.Evidence.{
  Upload, UploadReply, Capture, Hits, uploaded, not_found, invalid_image, rate_limited, is_capture,
  filled, fits, accepts, limited, store, well_formed, with_image, with_token, receive, post_upload,
}

module _ (node : Node) (utf8 : Text → Bytes) (upload : Upload) (now : ℕ) (rows : List Capture) where
  -- The replies of the route, without exceptions: a refusal leaves the captures as they were, and
  -- an upload fills the capture that it names, which was waiting for it under its token.
  pub data Outcome : Result UploadReply → List Capture → Type 0 where
    refused : (reply : UploadReply) → reply ≢ uploaded → Outcome (ok reply) rows
    accepted :
        (token : Text) (image : ParsedImage) (row : Capture)
        → upload.token ≡ some token
        → parse_upload utf8 upload.body upload.content_type ≡ some image
        → find_where (is_capture upload.org upload.id) rows ≡ some row
        → accepts node utf8 token now row ≡ true
        → Outcome
            (ok uploaded)
            (update_where (is_capture upload.org upload.id) (filled image now) rows)

  image-fits : (body : Bytes) (image : ParsedImage) → Contains body image → fits image ≡ true
  unfolding sniff
  image-fits body image c = ground (arith, c.typed, c.small)

  with_image-Outcome :
      (token : Text) (image : ParsedImage)
      → upload.token ≡ some token
      → parse_upload utf8 upload.body upload.content_type ≡ some image
      → is_id (codes "org_") upload.org ≡ true
      → (let out = with_image node utf8 upload token (some image) now rows in Outcome out.0 out.1)
  unfolding with_tenant settle store
  with_image-Outcome token image given parsed form =
      let small =
        image-fits upload.body image
          (parse_upload-Contains utf8 upload.body upload.content_type {image = image} parsed) in
      elim (Option-cases (find_where (is_capture upload.org upload.id) rows)) [
        | inl e ↦ rw (form, e) (refused not_found (λ s. cc))
        | inr (row, e) ↦ elim (Bool-cases (accepts node utf8 token now row)) [
          | inl a ↦ rw (form, e, a, small) (accepted token image row given parsed e a)
          | inr a ↦ rw (form, e, a) (refused not_found (λ s. cc))
        ]
      ]

  with_token-Outcome :
      (t : Option Text)
      → upload.token ≡ t
      → (let out = with_token node utf8 upload t now rows in Outcome out.0 out.1)
  with_token-Outcome none given = refused not_found (λ s. cc)
  with_token-Outcome (some token) given = elim (Bool-cases (well_formed node utf8 upload token)) [
    | inr f ↦ rw f (refused not_found (λ s. cc))
    | inl f ↦ elim (Option-cases (parse_upload utf8 upload.body upload.content_type)) [
      | inl g ↦ rw (f, g) (refused invalid_image (λ s. cc))
      | inr (image, g) ↦ rw (f, g) (with_image-Outcome token image given g (ground arith))
    ]
  ]

  receive-Outcome : (let out = receive node utf8 upload now rows in Outcome out.0 out.1)
  unfolding receive
  receive-Outcome = with_token-Outcome upload.token refl

  -- An upload is answered, never with an exception: a refusal leaves every capture as it was, and
  -- what is accepted is an image, which fills the capture that the upload names, after it waited for
  -- one, was not expired, and kept the hash of the token.
  pub post_upload-Outcome :
      (hits : List Hits)
      → (let out = post_upload node utf8 upload now hits rows in Outcome out.0.0 out.1)
  unfolding post_upload
  post_upload-Outcome hits = elim (Bool-cases (limited upload.ip now hits).0) [
    | inl e ↦ rw e (refused rate_limited (λ s. cc))
    | inr e ↦ rw e receive-Outcome
  ]

module _ (node : Node) (utf8 : Text → Bytes) where
  -- what an accepted upload has met
  Outcome-uploaded :
      (upload : Upload) (now : ℕ) (rows rows' : List Capture) {reply : Result UploadReply}
      → Outcome node utf8 upload now rows reply rows'
      → reply ≡ ok uploaded
      → (token : Text) × (image : ParsedImage) × (row : Capture) × (find_where
            (is_capture upload.org upload.id)
            rows
          ≡ some row)
        × (accepts node utf8 token now row ≡ true)
        × (rows' ≡ update_where (is_capture upload.org upload.id) (filled image now) rows)
  Outcome-uploaded upload now rows rows' (refused reply other) e = absurd (other (ground arith))
  Outcome-uploaded upload now rows rows' (accepted token image row given parsed there a) e =
      (token, image, row, there, a, refl)

  -- A capture is filled once: after an accepted upload every other upload for it is refused, at any
  -- time and with any token.
  pub post_upload-once :
      (upload again : Upload) (now later : ℕ) (hits hits' : List Hits) (rows : List Capture)
      → again.org ≡ upload.org
      → again.id ≡ upload.id
      → (post_upload node utf8 upload now hits rows).0.0 ≡ ok uploaded
      → (post_upload node utf8 again later hits' (post_upload node utf8 upload now hits rows).1).0.0
        ≢ ok uploaded
  post_upload-once upload again now later hits hits' rows org id h h' =
      let first = post_upload node utf8 upload now hits rows in
      let (token, image, row, there, a, after) =
        Outcome-uploaded upload now rows first.1
          (post_upload-Outcome node utf8 upload now rows hits) h in
      let (token', image', row', there', a', after') =
        Outcome-uploaded again later first.1 (post_upload node utf8 again later hits' first.1).1
          (post_upload-Outcome node utf8 again later first.1 hits') h' in
      let full : find_where (is_capture upload.org upload.id)
            (update_where (is_capture upload.org upload.id) (filled image now) rows)
          ≡ some (filled image now row) =
        find_where-update (is_capture upload.org upload.id) (is_capture upload.org upload.id)
          (filled image now) rows (λ r. refl)
        ∙ rw (there, find_where-holds (is_capture upload.org upload.id) rows there) refl in
      let same : some row' ≡ some (filled image now row) =
        sym there'
        ∙ ap₂ (λ o i. find_where (is_capture o i) first.1) org id
        ∙ ap (find_where (is_capture upload.org upload.id)) after
        ∙ full in
      ground (arith, a')

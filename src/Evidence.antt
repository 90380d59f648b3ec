-- ===== src/Evidence.antt =====
-- evidence/upload.ts: the captures of the game that a client uploads with a token.
pub mod Multipart
pub mod Outcome
use z_shield.Prelude.{
  ℕ, suc, ◌+◌, ◌-◌, Bool, true, false, not, ◌&&◌, ◌||◌, Option, none, some, List, [], ◌∷◌, ◌++◌,
  ltb, leb, if◌then◌else◌, length,
}
use z_shield.Text.{Text, codes, text_eq}
use z_shield.Table.{update_where, find_where, delete_where}
use z_shield.Crypto.{Bytes, Node, hash_token}
use z_shield.Tenant.{Result, ok, err, violation, with_tenant, is_id}
use z_shield.Evidence.Multipart.{Mime, ParsedImage, parse_upload}

-- An entry of `hits`, with its key.
pub record Hits : Type 0 where
  pub ip : Text
  pub n : ℕ
  pub start : ℕ

-- `limited`: the map has the key of an entry once
abbrev enter : Text → ℕ → List Hits → List Hits
enter ip now hits =
    let others = delete_where (λ h. text_eq h.ip ip) hits in
    let after = others ++ (record { ip = ip; n = 1; start = now } ∷ []) in
    if ltb 5000 (length after) then [] else after

abbrev hit : Text → ℕ → Option Hits → List Hits → Bool × List Hits
hit ip now none hits = (false, enter ip now hits)
hit ip now (some h) hits = if ltb 60000 (now - h.start) then (false, enter ip now hits) else (
  ltb 30 (suc h.n),
  update_where (λ r. text_eq r.ip ip) (λ r. record r { n = suc r.n }) hits,
)

unfoldable pub limited : Text → ℕ → List Hits → Bool × List Hits
limited ip now hits = hit ip now (find_where (λ h. text_eq h.ip ip) hits) hits

pub data CaptureStatus : Type 0 where
  pending received expired : CaptureStatus

abbrev pub is_pending : CaptureStatus → Bool
is_pending pending = true
is_pending received = false
is_pending expired = false

-- A row of evidence_captures.
pub record Capture : Type 0 where
  pub id : Text
  pub organization_id : Text
  pub token_hash : Bytes
  pub status : CaptureStatus
  pub mime : Option Mime
  pub bytes : Option ℕ
  pub image : Option Bytes
  pub expires_at : ℕ
  pub received_at : Option ℕ

abbrev pub is_capture : Text → Text → Capture → Bool
is_capture organization_id id c = text_eq c.organization_id organization_id && text_eq c.id id

abbrev pub filled : ParsedImage → ℕ → Capture → Capture
filled image now c = record c {
  status = received;
  mime = some image.mime;
  bytes = some (length image.content);
  image = some image.content;
  received_at = some now;
}

-- CHECK (bytes BETWEEN 1 AND 2097152)
abbrev pub fits : ParsedImage → Bool
fits image = leb 1 (length image.content) && leb (length image.content) 2097152

-- The parts of an upload that the route reads.
pub record Upload : Type 0 where
  pub org : Text
  pub id : Text
  pub token : Option Text
  pub body : Bytes
  pub content_type : Option Text
  pub ip : Text

-- 429, 404, 400 and 200
pub data UploadReply : Type 0 where
  rate_limited not_found invalid_image uploaded : UploadReply

module _ (node : Node) (utf8 : Text → Bytes) where
  -- the conditions on the row; the comparison of equal lengths is `timingSafeEqual`
  abbrev pub accepts : Text → ℕ → Capture → Bool
  accepts token now c =
      is_pending c.status && (ltb now c.expires_at && text_eq c.token_hash (hash_token node token))

  abbrev pub write : Upload → ParsedImage → ℕ → List Capture → Result Bool × List Capture
  write upload image now rows =
      if fits image
      then (ok true, update_where (is_capture upload.org upload.id) (filled image now) rows)
      else (err violation, rows)

  abbrev pub fill :
      Upload → Text → ParsedImage → ℕ → Option Capture → List Capture → Result Bool × List Capture
  fill upload token image now none rows = (ok false, rows)
  fill upload token image now (some c) rows =
      if accepts token now c then write upload image now rows else (ok false, rows)

  -- the transaction
  unfoldable pub store : Upload → Text → ParsedImage → ℕ → List Capture → Result Bool × List Capture
  store upload token image now rows =
      fill upload token image now (find_where (is_capture upload.org upload.id) rows) rows

  abbrev pub reply_stored : Result Bool × List Capture → Result UploadReply × List Capture
  reply_stored (ok true, rows) = (ok uploaded, rows)
  reply_stored (ok false, rows) = (ok not_found, rows)
  reply_stored (err e, rows) = (err e, rows)

  abbrev pub with_image :
      Upload → Text → Option ParsedImage → ℕ → List Capture → Result UploadReply × List Capture
  with_image upload token none now rows = (ok invalid_image, rows)
  with_image upload token (some image) now rows =
      reply_stored (with_tenant upload.org (store upload token image now) rows)

  abbrev pub well_formed : Upload → Text → Bool
  well_formed upload token =
      is_id (codes "org_") upload.org
      && (is_id (codes "cap_") upload.id
          && (not (ltb (length token) 20) && not (ltb 100 (length token))))

  abbrev pub with_token :
      Upload → Option Text → ℕ → List Capture → Result UploadReply × List Capture
  with_token upload none now rows = (ok not_found, rows)
  with_token upload (some token) now rows =
      if well_formed upload token
      then with_image upload token (parse_upload utf8 upload.body upload.content_type) now rows
      else (ok not_found, rows)

  -- the route, after the limit
  unfoldable pub receive : Upload → ℕ → List Capture → Result UploadReply × List Capture
  unfolding store
  receive upload now rows = with_token upload upload.token now rows

  -- POST /api/evidence/upload/:org/:id
  unfoldable pub post_upload :
      Upload → ℕ → List Hits → List Capture → (Result UploadReply × List Hits) × List Capture
  unfolding limited receive
  post_upload upload now hits rows =
      let (over, hits') = limited upload.ip now hits in
      if over
      then ((ok rate_limited, hits'), rows)
      else (let (reply, rows') = receive upload now rows in ((reply, hits'), rows'))

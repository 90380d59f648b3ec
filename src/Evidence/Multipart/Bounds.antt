-- ===== src/Evidence/Multipart/Bounds.antt =====
-- The loop of `parseUpload` ends, and what it finds is a small image out of the body.
use z_shield.Prelude.{
  ℕ, zero, suc, ◌+◌, ◌-◌, ◌≤◌, ◌<◌, ◌≡◌, ◌≢◌, refl, sym, ap, ◌∙◌, Option, none, some, [], ◌∷◌,
  arith, leb, ltb, ◌==◌, ◌||◌, length, Bool-cases, Option-cases, inl, inr, ◌⊎◌,
}
use z_shield.Text.{Text, codes, text_eq}
use z_shield.Text.Search.{index_in, index_from, slice, index_from-bounds, index_in-bound}
use z_shield.Crypto.{Bytes}
use z_shield.Evidence.Multipart.{
  Mime, ParsedImage, max_image_bytes, sniff, Scan, exhausted, nothing, found, take_part, scan,
  scan_from, image_of, whole, scanned, parse_upload, of_type, or_empty, boundary_of, is_multipart,
  delimiter,
}

-- Where the loop goes on: after the delimiter that ends the part.
record Part (boundary body : Bytes) (pos : ℕ) : Type 0 where
  head_end : ℕ
  next : ℕ
  later : pos < next
  inside : next ≤ length body

-- One round of the loop: it ends without an image, or takes a part and goes on.
scan_step :
    (left : ℕ) (boundary body : Bytes) (pos : ℕ)
    → (scan (suc left) boundary body pos ≡ nothing)
      ⊎ ((part : Part boundary body pos) × (let content =
              slice (part.head_end + 4) (part.next - 2) body in
            scan (suc left) boundary body pos
            ≡ take_part content (sniff content) (scan left boundary body part.next)))
unfolding scan
scan_step left boundary body pos =
    let after = pos + length boundary in
    let blank : Bytes = 13 ∷ 10 ∷ 13 ∷ 10 ∷ [] in
    elim (Bool-cases (text_eq (slice after (after + 2) body) (codes "--"))) [
      | inl e ↦ inl (rw e refl)
      | inr e ↦ elim (Option-cases (index_from blank (after + 2) body)) [
        | inl f ↦ inl (rw (e, f) refl)
        | inr (head_end, f) ↦ elim (Option-cases (index_from boundary (head_end + 4) body)) [
          | inl g ↦ inl (rw (e, f, g) refl)
          | inr (next, g) ↦
              let head = index_from-bounds blank (after + 2) body f in
              let tail = index_from-bounds boundary (head_end + 4) body g in
              let part : Part boundary body pos = record {
                head_end = head_end;
                next = next;
                later = omega (arith, head.0, tail.0);
                inside = omega (arith, head.1, tail.1, head.0);
              } in
              inr (part, rw (e, f, g) refl)
        ]
      ]
    ]

take_part-exhausted :
    (content : Bytes) (mime : Option Mime) (rest : Scan)
    → rest ≢ exhausted
    → take_part content mime rest ≢ exhausted
take_part-exhausted content none rest h e = h e
take_part-exhausted content (some mime) rest h e =
    elim (Bool-cases (leb (length content) max_image_bytes)) [
      | inl small ↦ cc (rw small at e)
      | inr large ↦ h (rw large at e)
    ]

-- The loop has enough rounds: one more than the code units after its position.
scan_lem :
    (left : ℕ) (boundary body : Bytes) (pos : ℕ)
    → pos ≤ length body
    → length body - pos < left
    → scan left boundary body pos ≢ exhausted
scan_lem zero boundary body pos inside enough e = absurd (omega arith)
scan_lem (suc left) boundary body pos inside enough e = elim (scan_step left boundary body pos) [
  | inl stop ↦ absurd (ground arith)
  | inr (part, more) ↦
      let content = slice (part.head_end + 4) (part.next - 2) body in
      let rest =
        scan_lem left boundary body part.next part.inside
          (omega (arith, part.later, part.inside)) in
      take_part-exhausted content (sniff content) (scan left boundary body part.next) rest
        (sym more ∙ e)
]

-- An image of a body: its type is that of its bytes, it is small, and its bytes are a section of the
-- body.
pub record Contains (body : Bytes) (image : ParsedImage) : Type 0 where
  pub typed : sniff image.content ≡ some image.mime
  pub small : length image.content ≤ max_image_bytes
  pub start : ℕ
  pub end : ℕ
  pub section : image.content ≡ slice start end body

take_part-found :
    (content : Bytes) (mime : Option Mime) (rest : Scan) {image : ParsedImage}
    → take_part content mime rest ≡ found image
    → ((mime ≡ some image.mime) × (length content ≤ max_image_bytes) × (image.content ≡ content))
      ⊎ (rest ≡ found image)
take_part-found content none rest h = inr h
take_part-found content (some mime) rest {image} h =
    elim (Bool-cases (leb (length content) max_image_bytes)) [
      | inl small ↦
          let same : record { mime = mime; content = content } ≡ image = ground arith in
          inl (ap (λ i. some i.mime) same, ground arith, sym (ap (λ i. i.content) same))
      | inr large ↦ inr (rw large at h)
    ]

part-Contains :
    (body content : Bytes) (start end : ℕ) {image : ParsedImage}
    → content ≡ slice start end body
    → (sniff content ≡ some image.mime)
      × (length content ≤ max_image_bytes)
      × (image.content ≡ content)
    → Contains body image
part-Contains body content start end {image} cut (typed, small, same) = record {
  typed = ap sniff same ∙ typed;
  small = omega (arith, small, ap length same);
  start = start;
  end = end;
  section = same ∙ cut;
}

scan-Contains :
    (left : ℕ) (boundary body : Bytes) (pos : ℕ) {image : ParsedImage}
    → scan left boundary body pos ≡ found image
    → Contains body image
unfolding scan
scan-Contains zero boundary body pos h = absurd (ground arith)
scan-Contains (suc left) boundary body pos {image} h = elim (scan_step left boundary body pos) [
  | inl stop ↦ absurd (ground arith)
  | inr (part, more) ↦
      let content = slice (part.head_end + 4) (part.next - 2) body in
      elim (take_part-found content (sniff content) (scan left boundary body part.next)
        {image = image} (sym more ∙ h)) [
          | inl here ↦
              part-Contains body content (part.head_end + 4) (part.next - 2) {image = image} refl
                here
          | inr rest ↦ scan-Contains left boundary body part.next {image = image} rest
        ]
]

image_of-some : (s : Scan) {image : ParsedImage} → image_of s ≡ some image → s ≡ found image
image_of-some exhausted h = absurd (ground arith)
image_of-some nothing h = absurd (ground arith)
image_of-some (found image) h = ground arith

slice-whole : (body : Bytes) → slice 0 (length body) body ≡ body
unfolding slice
slice-whole [] = refl
slice-whole (c ∷ body) = ap (◌∷◌ c) (slice-whole body)

whole-Contains :
    (body : Bytes) {image : ParsedImage} → whole body ≡ some image → Contains body image
whole-Contains body {image} h =
    elim (take_part-found body (sniff body) nothing {image = image} (image_of-some _ h)) [
      | inl here ↦
          part-Contains body body 0 (length body) {image = image} (sym (slice-whole body)) here
      | inr rest ↦ absurd (ground arith)
    ]

module _ (utf8 : Text → Bytes) where
  -- The loop over the parts of any body ends, for any boundary: with an image or without one.
  pub scanned-ends : (body : Bytes) (boundary : Text) → scanned utf8 body boundary ≢ exhausted
  unfolding scan_from
  scanned-ends body boundary e = elim (Option-cases (index_in (delimiter utf8 boundary) body)) [
    | inl none_found ↦ cc (rw none_found at e)
    | inr (pos, at) ↦
        scan_lem (suc (length body)) (delimiter utf8 boundary) body pos
          (omega (arith, index_in-bound (delimiter utf8 boundary) body {n = pos} at)) (omega arith)
          (rw at at e)
  ]

  scanned-Contains :
      (body : Bytes) (boundary : Text) {image : ParsedImage}
      → scanned utf8 body boundary ≡ found image
      → Contains body image
  unfolding scan_from
  scanned-Contains body boundary {image} h =
      elim (Option-cases (index_in (delimiter utf8 boundary) body)) [
        | inl none_found ↦ absurd (ground arith)
        | inr (pos, e) ↦
            scan-Contains (suc (length body)) (delimiter utf8 boundary) body pos {image = image}
              (rw e at h)
      ]

  of_type-Contains :
      (body : Bytes) (content_type : Text) (boundary : Option Text) {image : ParsedImage}
      → of_type utf8 body content_type boundary ≡ some image
      → Contains body image
  of_type-Contains body content_type none h = whole-Contains body h
  of_type-Contains body content_type (some boundary) {image} h =
      elim (Bool-cases (is_multipart content_type)) [
        | inl e ↦
            scanned-Contains body boundary {image = image}
              (image_of-some (scanned utf8 body boundary) (rw e at h))
        | inr e ↦ whole-Contains body (rw e at h)
      ]

  -- What is read out of an upload, whatever its body and its Content-Type say, is a JPEG or a PNG by
  -- its first bytes, of at most 1.5 MiB, and stands in the body as it is.
  pub parse_upload-Contains :
      (body : Bytes) (content_type : Option Text) {image : ParsedImage}
      → parse_upload utf8 body content_type ≡ some image
      → Contains body image
  unfolding parse_upload
  parse_upload-Contains body content_type {image} h =
      elim (Bool-cases (length body == 0 || ltb (max_image_bytes + 4096) (length body))) [
        | inl e ↦ absurd (ground arith)
        | inr e ↦
            of_type-Contains body (or_empty content_type) (boundary_of (or_empty content_type))
              (rw e at h)
      ]

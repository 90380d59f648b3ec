-- ===== src/Evidence/Multipart.antt =====
-- `parseUpload` of evidence/upload.ts: the image of a body, raw or of the form multipart/form-data.
pub mod Bounds
use mathlib.Core.Option
use z_shield.Prelude.{
  ℕ, zero, suc, String, ◌+◌, ◌-◌, Bool, true, false, not, ◌&&◌, ◌||◌, Option, none, some, List, [],
  ◌∷◌, ◌++◌, ltb, leb, ◌==◌, if◌then◌else◌, length, is_some,
}
use z_shield.Text.{Text, codes, text_eq, to_upper, drop}
use z_shield.Text.Search.{starts_with, index_in, index_from, slice}
use z_shield.Crypto.{Bytes}

abbrev pub max_image_bytes : ℕ
max_image_bytes = 1572864

pub data Mime : Type 0 where
  jpeg png : Mime

pub record ParsedImage : Type 0 where
  pub mime : Mime
  pub content : Bytes

abbrev jpeg_start : Bytes
jpeg_start = 0xff ∷ 0xd8 ∷ 0xff ∷ []

abbrev png_start : Bytes
png_start = 0x89 ∷ 0x50 ∷ 0x4e ∷ 0x47 ∷ 0x0d ∷ 0x0a ∷ 0x1a ∷ 0x0a ∷ []

unfoldable pub sniff : Bytes → Option Mime
unfolding starts_with
sniff content =
    if ltb 3 (length content) && starts_with jpeg_start content
    then some jpeg
    else if ltb 8 (length content) && starts_with png_start content
    then some png
    else none

-- The white space of `trim`.
abbrev pub is_space : ℕ → Bool
is_space c =
    (leb 9 c && leb c 13)
    || (c == 32
        || (c == 0xa0
            || (c == 0x1680
                || ((leb 0x2000 c && leb c 0x200a)
                    || (c == 0x2028
                        || (c == 0x2029
                            || (c == 0x202f || (c == 0x205f || (c == 0x3000 || c == 0xfeff)))))))))

unfoldable pub trim_start : Text → Text
trim_start [] = []
trim_start (c ∷ s) = let rest = trim_start s in if is_space c then rest else c ∷ s

abbrev pub space_then : ℕ → Text → Text
space_then c [] = if is_space c then [] else c ∷ []
space_then c (d ∷ s) = c ∷ d ∷ s

unfoldable pub trim_end : Text → Text
trim_end [] = []
trim_end (c ∷ s) = space_then c (trim_end s)

-- the longest beginning without a code unit
unfoldable pub before : ℕ → Text → Text
before stop [] = []
before stop (c ∷ s) = let rest = before stop s in if c == stop then [] else c ∷ rest

abbrev pub nonempty : Text → Option Text
nonempty [] = none
nonempty (c ∷ s) = some (c ∷ s)

abbrev pub closed : Text → Option Text → Option Text
closed s none = none
closed s (some q) = if starts_with (b'"' ∷ []) (drop (length q) s) then some q else none

abbrev pub or_else : Option Text → Option Text → Option Text
or_else (some a) other = some a
or_else none other = other

-- `(?:"([^"]+)"|([^;]+))` at the beginning of a text
abbrev pub captured : Text → Option Text
captured [] = none
captured (c ∷ s) =
    let plain = nonempty (before (b';') (c ∷ s)) in
    if c == b'"' then or_else (closed s (nonempty (before (b'"') s))) plain else plain

abbrev pub matches : String → Text → Bool
matches word s = starts_with (to_upper (codes word)) (to_upper s)

-- `/boundary=(?:"([^"]+)"|([^;]+))/i`
unfoldable pub boundary_of : Text → Option Text
unfolding before starts_with drop to_upper
boundary_of [] = none
boundary_of (c ∷ s) =
    let rest = boundary_of s in
    if matches "boundary=" (c ∷ s) then or_else (captured (drop 9 (c ∷ s))) rest else rest

-- `/multipart\/form-data/i`
unfoldable pub is_multipart : Text → Bool
unfolding index_in to_upper
is_multipart s = is_some (index_in (to_upper (codes "multipart/form-data")) (to_upper s))

-- What the loop over the parts ends in: no round left, no image, or the first image.
pub data Scan : Type 0 where
  exhausted nothing : Scan
  found : ParsedImage → Scan

abbrev pub take_part : Bytes → Option Mime → Scan → Scan
take_part content none rest = rest
take_part content (some mime) rest =
    if leb (length content) max_image_bytes
    then found (record { mime = mime; content = content })
    else rest

-- `while (pos !== -1)`, over the rounds that are left
unfoldable pub scan : ℕ → Bytes → Bytes → ℕ → Scan
unfolding sniff index_from slice
scan zero boundary body pos = exhausted
scan (suc left) boundary body pos =
    let after = pos + length boundary in
    if text_eq (slice after (after + 2) body) (codes "--")
    then nothing
    else (elim (index_from (13 ∷ 10 ∷ 13 ∷ 10 ∷ []) (after + 2) body) [
      | none ↦ nothing
      | some head_end ↦ elim (index_from boundary (head_end + 4) body) [
        | none ↦ nothing
        | some next ↦
            let content = slice (head_end + 4) (next - 2) body in
            take_part content (sniff content) (scan left boundary body next)
      ]
    ])

abbrev pub image_of : Scan → Option ParsedImage
image_of exhausted = none
image_of nothing = none
image_of (found image) = some image

unfoldable pub scan_from : Bytes → Bytes → Option ℕ → Scan
unfolding scan
scan_from boundary body none = nothing
scan_from boundary body (some pos) = scan (suc (length body)) boundary body pos

abbrev pub whole : Bytes → Option ParsedImage
whole body = image_of (take_part body (sniff body) nothing)

abbrev pub or_empty : Option Text → Text
or_empty none = []
or_empty (some s) = s

module _ (utf8 : Text → Bytes) where
  abbrev pub delimiter : Text → Bytes
  delimiter boundary = utf8 (codes "--" ++ trim_end (trim_start boundary))

  abbrev pub scanned : Bytes → Text → Scan
  scanned body boundary = let d = delimiter boundary in scan_from d body (index_in d body)

  abbrev pub of_type : Bytes → Text → Option Text → Option ParsedImage
  of_type body content_type none = whole body
  of_type body content_type (some boundary) =
      if is_multipart content_type then image_of (scanned body boundary) else whole body

  -- `parseUpload`; `utf8` is `Buffer.from` of a text
  unfoldable pub parse_upload : Bytes → Option Text → Option ParsedImage
  unfolding boundary_of trim_start trim_end
  parse_upload body content_type =
      if length body == 0 || ltb (max_image_bytes + 4096) (length body)
      then none
      else (let ct = or_empty content_type in of_type body ct (boundary_of ct))

-- ===== src/Auth/Totp.antt =====
-- auth/totp.ts: the codes of the second factor (RFC 6238) and the recovery codes.
pub mod Base32
pub mod Code
pub mod Replay
pub mod Recovery
use mathlib.Core.Option
use z_shield.Prelude.{
  ℕ, zero, suc, ◌+◌, ◌-◌, ◌*◌, ◌/◌, ◌%◌, ◌^◌, Bool, true, false, not, ◌&&◌, ◌||◌, Option, none,
  some, List, [], ◌∷◌, ◌++◌, map, ltb, leb, ◌==◌, if◌then◌else◌, length,
}
use z_shield.Text.{Text, codes, text_eq, take, drop, to_upper, decimal}
use z_shield.Crypto.{Bytes, Node, get_or, hash_token}

-- `BASE32_ALPHABET`
abbrev pub base32_alphabet : Text
base32_alphabet = codes "ABCDEFGHIJKLMNOPQRSTUVWXYZ234567"

-- a letter of the alphabet, at an index below 32
unfoldable pub letter : ℕ → ℕ
letter i = get_or b'A' base32_alphabet i

-- `value << n | low` for `low` below 2 ^ n: a word of 32 bits, which loses its high bits
abbrev pub shift_in : ℕ → ℕ → ℕ → ℕ
shift_in value n low = (value * 2 ^ n) % 2 ^ 32 + low

-- The inner loop of `generateTotpSecret`, `while (bits >= 5)`: what it appends, and the bits left.
-- A byte leaves at most twelve bits, so two rounds are enough.
unfoldable pub emit : ℕ → ℕ → ℕ → Text × ℕ
emit zero value bits = ([], bits)
emit (suc rounds) value bits =
    let (output, left) = emit rounds value (bits - 5) in
    if leb 5 bits then (letter (value / 2 ^ (bits - 5) % 32) ∷ output, left) else ([], bits)

-- its outer loop, and what is appended for the bits that are left
unfoldable pub encode_from : ℕ → ℕ → Bytes → Text
unfolding emit
encode_from value bits [] = if ltb 0 bits then letter (value * 2 ^ (5 - bits) % 32) ∷ [] else []
encode_from value bits (byte ∷ bytes) =
    let value' = shift_in value 8 byte in
    let (output, left) = emit 2 value' (bits + 8) in output ++ encode_from value' left bytes

-- `generateTotpSecret` on the bytes that were drawn
unfoldable pub generate_totp_secret : Bytes → Text
unfolding encode_from
generate_totp_secret bytes = encode_from 0 0 bytes

-- the class `\s`
abbrev pub is_space : ℕ → Bool
is_space c =
    (leb 9 c && leb c 13)
    || c == 32
    || c == 160
    || c == 0x1680
    || (leb 0x2000 c && leb c 0x200a)
    || c == 0x2028
    || c == 0x2029
    || c == 0x202f
    || c == 0x205f
    || c == 0x3000
    || c == 0xfeff

-- `replace(/\s/g, '')`
unfoldable pub strip_spaces : Text → Text
strip_spaces [] = []
strip_spaces (c ∷ s) = let rest = strip_spaces s in if is_space c then rest else c ∷ rest

-- `replace(/=+$/, '')`
abbrev equals_then : ℕ → Text → Text
equals_then c [] = if c == b'=' then [] else c ∷ []
equals_then c (d ∷ s) = c ∷ d ∷ s

unfoldable pub strip_equals : Text → Text
strip_equals [] = []
strip_equals (c ∷ s) = equals_then c (strip_equals s)

-- `BASE32_ALPHABET.indexOf(character)`
abbrev index_from : ℕ → Text → ℕ → Option ℕ
index_from i [] c = none
index_from i (d ∷ s) c = if d == c then some i else index_from (suc i) s c

unfoldable pub index_of : ℕ → Option ℕ
index_of c = index_from 0 base32_alphabet c

-- the loop of `base32Decode`; `none` is its exception
unfoldable pub decode_from : ℕ → ℕ → Text → Option Bytes
decode_from value bits [] = some []
decode_from value bits (c ∷ s) = elim (index_of c) [
  | none ↦ none
  | some index ↦
      let value' = shift_in value 5 index in
      elim (leb 8 (bits + 5)) [
        | true ↦
            Option.map (λ bytes. (value' / 2 ^ (bits + 5 - 8) % 256) ∷ bytes)
              (decode_from value' (bits + 5 - 8) s)
        | false ↦ decode_from value' (bits + 5) s
      ]
]

-- `base32Decode`
unfoldable pub base32_decode : Text → Option Bytes
base32_decode input = decode_from 0 0 (strip_spaces (strip_equals (to_upper input)))

-- `writeBigUInt64BE`, in eight bytes of which the last is the lowest
abbrev pub counter_bytes : ℕ → Bytes
counter_bytes step =
    (step / 2 ^ 56 % 256)
    ∷ (step / 2 ^ 48 % 256)
    ∷ (step / 2 ^ 40 % 256)
    ∷ (step / 2 ^ 32 % 256)
    ∷ (step / 2 ^ 24 % 256)
    ∷ (step / 2 ^ 16 % 256)
    ∷ (step / 2 ^ 8 % 256)
    ∷ (step % 256)
    ∷ []

-- `padStart(n, '0')`
abbrev pub pad_start : ℕ → Text → Text
pad_start zero s = s
pad_start (suc missing) s = b'0' ∷ pad_start missing s

-- the offset in the last byte of a digest
abbrev pub offset_of : Bytes → ℕ
offset_of digest = get_or 0 digest (length digest - 1) % 16

-- the dynamic truncation of a digest: `|` of parts that do not overlap
unfoldable pub truncated : Bytes → ℕ
truncated digest =
    let offset = offset_of digest in
    get_or 0 digest offset % 128 * 2 ^ 24
    + get_or 0 digest (offset + 1) * 2 ^ 16
    + get_or 0 digest (offset + 2) * 2 ^ 8
    + get_or 0 digest (offset + 3)

unfoldable pub six_digits : ℕ → Text
six_digits n = let s = decimal (n % 1000000) in pad_start (6 - length s) s

-- `hmac_sha1` is `createHmac('sha1', key)` on one message
module _ (hmac_sha1 : Bytes → Bytes → Bytes) where
  -- `totpCodeForStep`; `none` is the exception of `base32Decode`
  unfoldable pub totp_code : Text → ℕ → Option Text
  totp_code secret step =
      Option.map (λ key. six_digits (truncated (hmac_sha1 key (counter_bytes step))))
        (base32_decode secret)

-- `currentStep`
abbrev pub current_step : ℕ → ℕ
current_step now = now / 30000

pub data TotpVerification : Type 0 where
  valid : ℕ → TotpVerification
  malformed mismatch replayed : TotpVerification

abbrev pub is_digit : ℕ → Bool
is_digit c = leb b'0' c && leb c b'9'

abbrev pub every : (ℕ → Bool) → Text → Bool
every test [] = true
every test (c ∷ s) = test c && every test s

abbrev pub is_code : Text → Bool
is_code s = length s == 6 && every is_digit s

-- `lastUsedStep != null && step <= lastUsedStep`
abbrev pub is_used : Option ℕ → ℕ → Bool
is_used none step = false
is_used (some last) step = leb step last

module _ (hmac_sha1 : Bytes → Bytes → Bytes) (secret : Text) where
  -- the loop of `verifyTotp`, over `rounds` steps from `from - window`; `none` is an exception
  unfoldable pub try_steps : ℕ → ℕ → ℕ → Option ℕ → Text → Option TotpVerification
  try_steps zero from window last provided = some mismatch
  try_steps (suc rounds) from window last provided =
      let rest = try_steps rounds (suc from) window last provided in
      if ltb from window then rest else elim (totp_code hmac_sha1 secret (from - window)) [
        | none ↦ none
        | some expected ↦
            if text_eq expected provided
            then some (if is_used last (from - window) then replayed else valid (from - window))
            else rest
      ]

  -- `verifyTotp`
  unfoldable pub verify_totp : Text → Option ℕ → ℕ → ℕ → Option TotpVerification
  verify_totp code last now window =
      let cleaned = strip_spaces code in
      if is_code cleaned
      then try_steps (window + 1 + window) (current_step now) window last cleaned
      else some malformed

-- `trim`, at the start and then at the end
abbrev pub trim_start : Text → Text
trim_start [] = []
trim_start (c ∷ s) = let rest = trim_start s in if is_space c then rest else c ∷ s

abbrev space_then : ℕ → Text → Text
space_then c [] = if is_space c then [] else c ∷ []
space_then c (d ∷ s) = c ∷ d ∷ s

abbrev pub trim_end : Text → Text
trim_end [] = []
trim_end (c ∷ s) = space_then c (trim_end s)

-- `indexOf` and `splice(index, 1)`
unfoldable pub remove_first : Text → List Text → Option (List Text)
remove_first candidate [] = none
remove_first candidate (h ∷ hashes) =
    let rest = Option.map (λ left. h ∷ left) (remove_first candidate hashes) in
    if text_eq h candidate then some hashes else rest

abbrev consumed : List Text → Option (List Text) → Bool × List Text
consumed hashes none = (false, hashes)
consumed hashes (some remaining) = (true, remaining)

-- two digits of `toString('hex').toUpperCase()`
abbrev hex_digit : ℕ → ℕ
hex_digit n = if ltb n 10 then 48 + n else 55 + n

abbrev pub upper_hex : Bytes → Text
upper_hex [] = []
upper_hex (b ∷ bs) = hex_digit (b / 16 % 16) ∷ hex_digit (b % 16) ∷ upper_hex bs

module _ (node : Node) where
  -- `consumeRecoveryCode`: whether it is accepted, and what remains; hashes are compared by their text
  unfoldable pub consume_recovery_code : Text → List Text → Bool × List Text
  unfolding remove_first
  consume_recovery_code presented hashes =
      consumed hashes
        (remove_first (hash_token node (to_upper (trim_end (trim_start presented)))) hashes)

  -- one of `generateRecoveryCodes`, from the five bytes that were drawn
  unfoldable pub recovery_code : Bytes → Text
  recovery_code bytes = let raw = upper_hex bytes in take 5 raw ++ (b'-' ∷ drop 5 raw)

  -- `generateRecoveryCodes`: the codes, and the hashes that are stored
  unfoldable pub generate_recovery_codes : List Bytes → List Text × List Text
  generate_recovery_codes draws = (
    map (λ bytes. recovery_code bytes) draws,
    map (λ bytes. hash_token node (recovery_code bytes)) draws,
  )

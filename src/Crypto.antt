-- ===== src/Crypto.antt =====
-- lib/crypto.ts: password hashes, the envelope of secrets at rest, identifiers.
pub mod Passwords
pub mod Envelope
pub mod Alphabet
use z_shield.Prelude.{
  ℕ, zero, suc, ◌-◌, ◌+◌, ◌*◌, ◌^◌, ◌%◌, Bool, true, false, not, ◌&&◌, ◌||◌, Option, none, some,
  List, [], ◌∷◌, ◌++◌, ltb, leb, ◌==◌, if◌then◌else◌, length, is_some, map, ◌≡◌, ◌<◌, All,
}
use mathlib.Core.Option
use z_shield.Text.{Text, codes, text_eq, take, drop, split, join, decimal}
use z_shield.Text.Lines.{Lacks}

abbrev pub Bytes : Type 0
Bytes = List ℕ

-- A text without a surrogate that stands alone (`isWellFormed`), after a code unit that is a high
-- surrogate or not.
abbrev is_high : ℕ → Bool
is_high c = leb 0xd800 c && leb c 0xdbff

abbrev is_low : ℕ → Bool
is_low c = leb 0xdc00 c && leb c 0xdfff

unfoldable pub pairs_from : Bool → Text → Bool
pairs_from true [] = false
pairs_from true (c ∷ s) = is_low c && pairs_from false s
pairs_from false [] = true
pairs_from false (c ∷ s) = not (is_low c) && pairs_from (is_high c) s

abbrev pub is_well_formed : Text → Bool
is_well_formed s = pairs_from false s

-- What the source calls of node:crypto and of the runtime. `sha256` is the hexadecimal digest,
-- `utf8` and `from_utf8` are the conversions of a text to bytes and back;
-- `number` is `Number(s)` where that is an integer which is not negative.
pub record Node : Type 0 where
  pub sha256 : Text → Text
  pub hmac_sha256 : Text → Text → Text
  pub scrypt : Text → Bytes → ℕ → ℕ → ℕ → ℕ → Bytes
  pub base64 : Bytes → Text
  pub from_base64 : Text → Bytes
  pub base64url : Bytes → Text
  pub utf8 : Text → Bytes
  pub from_utf8 : Bytes → Text
  pub gcm_seal : Bytes → Bytes → Bytes → Bytes × Bytes
  pub gcm_open : Bytes → Bytes → Bytes → Bytes → Option Bytes
  pub number : Text → Option ℕ

-- The documented behaviour that the theorems rely on.
pub record NodeLaws (node : Node) : Type 0 where
  -- decoding undoes encoding, and the alphabet of base64 has no dollar sign
  pub from_base64-base64 : (b : Bytes) → node.from_base64 (node.base64 b) ≡ b
  pub base64-Lacks : (b : Bytes) → Lacks b'$' (node.base64 b)
  -- the alphabet of base64url is of ASCII
  pub base64url-ascii : (b : Bytes) → All (λ c. c < 128) (node.base64url b)
  -- decoding undoes encoding, except on a surrogate that stands alone
  pub from_utf8-utf8 : (s : Text) → is_well_formed s ≡ true → node.from_utf8 (node.utf8 s) ≡ s
  -- a key of the length that was asked for
  pub length-scrypt :
      (password : Text) (salt : Bytes) (keylen n r p : ℕ)
      → length (node.scrypt password salt keylen n r p) ≡ keylen
  -- AES-256-GCM: the tag has 16 bytes, and what was sealed is opened under the same key
  pub length-tag : (key iv plain : Bytes) → length (node.gcm_seal key iv plain).1 ≡ 16
  pub open-seal :
      (key iv plain : Bytes)
      → node.gcm_open key iv (node.gcm_seal key iv plain).1 (node.gcm_seal key iv plain).0
        ≡ some plain
  pub number-decimal : (n : ℕ) → node.number (decimal n) ≡ some n

module _ (node : Node) where
  -- `hashToken`
  unfoldable pub hash_token : Text → Text
  hash_token token = node.sha256 token

  -- `constantTimeEqual`
  unfoldable pub constant_time_equal : Text → Text → Bool
  constant_time_equal a b = text_eq (node.sha256 a) (node.sha256 b)

  -- `hashPassword` with the salt that was drawn; `none` is the exception on a short password
  unfoldable pub hash_password : Text → Bytes → Option Text
  hash_password password salt =
      if ltb (length password) 12
      then none
      else some (
          join b'$' (
            codes "scrypt"
            ∷ decimal 32768
            ∷ decimal 8
            ∷ decimal 1
            ∷ node.base64 salt
            ∷ node.base64 (node.scrypt password salt 32 32768 8 1)
            ∷ []))

  -- the derived key against the expected one, when the three parameters are integers
  verify_key : Text → Option ℕ → Option ℕ → Option ℕ → Bytes → Bytes → Bool
  verify_key password (some n) (some r) (some p) salt expected =
      if length salt == 0 || length expected == 0
      then false
      else text_eq (node.scrypt password salt (length expected) n r p) expected
  verify_key password _ _ _ salt expected = false

  -- the tests on the six parts of a stored hash
  verify_parts : Text → List Text → Bool
  unfolding verify_key
  verify_parts password (scheme ∷ n ∷ r ∷ p ∷ salt ∷ expected ∷ []) =
      if not (text_eq scheme (codes "scrypt"))
      then false
      else verify_key password (node.number n) (node.number r) (node.number p)
          (node.from_base64 salt) (node.from_base64 expected)
  verify_parts password _ = false

  -- `verifyPassword`
  unfoldable pub verify_password : Text → Text → Bool
  unfolding verify_parts
  verify_password password stored = verify_parts password (split b'$' stored)

  -- `encryptSecret` with the IV that was drawn; `none` is an exception
  unfoldable pub encrypt_secret : Text → Bytes → Bytes → Option Bytes
  encrypt_secret plaintext key iv =
      if not (length key == 32)
      then none
      else let sealed = node.gcm_seal key iv (node.utf8 plaintext) in
        some ((1 ∷ []) ++ (iv ++ (sealed.1 ++ sealed.0)))

  -- the version byte, then `subarray` three times
  open_envelope : Bytes → Bytes → Option Bytes
  open_envelope [] key = none
  open_envelope (version ∷ rest) key =
      if not (version == 1)
      then none
      else node.gcm_open key (take 12 rest) (take 16 (drop 12 rest)) (drop 28 rest)

  -- `decryptSecret`; `none` is an exception
  unfoldable pub decrypt_secret : Bytes → Bytes → Option Text
  unfolding open_envelope
  decrypt_secret envelope key =
      if not (length key == 32)
      then none
      else if ltb (length envelope) 29
      then none
      else Option.map node.from_utf8 (open_envelope envelope key)

  -- `newAgentSecret`, on the bytes that were drawn
  unfoldable pub new_agent_secret : Bytes → Text
  new_agent_secret bytes = node.base64url bytes

-- `ALPHABET`
abbrev pub alphabet : Text
alphabet = codes "0123456789abcdefghjkmnpqrstvwxyz"

abbrev pub get_or : {A : Type 0} → A → List A → ℕ → A
get_or d [] i = d
get_or d (x ∷ xs) zero = x
get_or d (x ∷ xs) (suc i) = get_or d xs i

-- the inner loop of `randomBase32`: `wanted` letters are still to be drawn
unfoldable pub draw : ℕ → Bytes → Text
draw zero bytes = []
draw (suc wanted) [] = []
draw (suc wanted) (byte ∷ bytes) =
    let accepted = get_or b'0' alphabet (byte % 32) ∷ draw wanted bytes in
    let rejected = draw (suc wanted) bytes in if ltb byte 248 then accepted else rejected

-- `randomBase32` on the random bytes that are drawn, round after round
unfoldable pub random_base32 : ℕ → List Bytes → Text
unfolding draw
random_base32 wanted [] = []
random_base32 wanted (round ∷ rounds) =
    let out = draw wanted round in out ++ random_base32 (wanted - length out) rounds

-- `newId`
unfoldable pub new_id : Text → List Bytes → Text
unfolding random_base32
new_id prefix rounds = prefix ++ (b'_' ∷ random_base32 26 rounds)

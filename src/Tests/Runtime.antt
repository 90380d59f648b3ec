-- ===== src/Tests/Runtime.antt =====
-- A runtime that meets the assumptions on node:crypto, and the primitives of lib/crypto.ts over it.
use z_shield.Prelude.{
  ℕ, zero, suc, ◌+◌, ◌-◌, ◌≡◌, refl, ap, ap₂, ◌<◌, ◌%◌, true, false, none, some, List, [], ◌∷◌,
  ◌++◌, arith, length, map, All,
}
use z_shield.Text.{Text, codes, text_eq, decimal, join}
use z_shield.Text.Lines.{Lacks}
use z_shield.Text.Decimal.{value_from, value_from-decimal}
use z_shield.Crypto.{
  Bytes, Node, NodeLaws, hash_password, verify_password, encrypt_secret, decrypt_secret,
  is_well_formed, pairs_from,
}
use z_shield.Crypto.Passwords.{verify-hash}
use z_shield.Crypto.Envelope.{decrypt-encrypt}
use z_shield.Crypto.Alphabet.{ways, ways_uneven}

abbrev shift_up : Bytes → Text
shift_up [] = []
shift_up (b ∷ bs) = (b + 37) ∷ shift_up bs

abbrev shift_down : Text → Bytes
shift_down [] = []
shift_down (c ∷ cs) = (c - 37) ∷ shift_down cs

shift_back : (b : Bytes) → shift_down (shift_up b) ≡ b
shift_back [] = refl
shift_back (b ∷ bs) = ap₂ ◌∷◌ (omega arith) (shift_back bs)

shift_up-Lacks : (b : Bytes) → Lacks b'$' (shift_up b)
shift_up-Lacks [] = tt
shift_up-Lacks (b ∷ bs) = (omega arith, shift_up-Lacks bs)

ascii : (b : Bytes) → All (λ c. c < 128) (map (λ c. c % 128) b)
ascii [] = tt
ascii (b ∷ bs) = (omega arith, ascii bs)

-- The first `n` entries, filled up with zeros.
abbrev pub fit : ℕ → Bytes → Bytes
fit zero bs = []
fit (suc n) [] = 0 ∷ fit n []
fit (suc n) (b ∷ bs) = b ∷ fit n bs

length-fit : (n : ℕ) (bs : Bytes) → length (fit n bs) ≡ n
length-fit zero bs = refl
length-fit (suc n) [] = ap suc (length-fit n [])
length-fit (suc n) (b ∷ bs) = ap suc (length-fit n bs)

abbrev pub toy : Node
toy = record {
  sha256 = λ s. s;
  hmac_sha256 = λ key message. key ++ message;
  scrypt = λ password salt keylen n r p. fit keylen (salt ++ password);
  base64 = shift_up;
  from_base64 = shift_down;
  base64url = λ b. map (λ c. c % 128) b;
  utf8 = λ s. s;
  from_utf8 = λ b. b;
  gcm_seal = λ key iv plain. (plain, fit 16 []);
  gcm_open = λ key iv tag ct. some ct;
  number = λ s. some (value_from 0 s);
}

pub toy_laws : NodeLaws toy
toy_laws = record {
  from_base64-base64 = shift_back;
  base64-Lacks = shift_up-Lacks;
  base64url-ascii = ascii;
  from_utf8-utf8 = λ s formed. refl;
  length-scrypt = λ password salt keylen n r p. length-fit keylen (salt ++ password);
  length-tag = λ key iv plain. refl;
  open-seal = λ key iv plain. refl;
  number-decimal = λ n. ap some (value_from-decimal n);
}

abbrev pub secret : Text
secret = codes "correct horse battery"

abbrev pub salt : Bytes
salt = 1 ∷ 2 ∷ 3 ∷ []

abbrev pub key_of : Text → Bytes
key_of password = toy.scrypt password salt 32 32768 8 1

abbrev pub stored : Text
stored = join b'$' (
    codes "scrypt"
    ∷ decimal 32768
    ∷ decimal 8
    ∷ decimal 1
    ∷ toy.base64 salt
    ∷ toy.base64 (key_of secret)
    ∷ [])

verify-hash_example :
    verify_password toy (codes "wrong horse battery") stored
    ≡ text_eq (key_of (codes "wrong horse battery")) (key_of secret)
unfolding hash_password
verify-hash_example =
    verify-hash toy toy_laws secret (codes "wrong horse battery") salt {stored = stored}
      (omega arith) refl

-- The other password is refused, and the hashed one accepted.
wrong_password : text_eq (key_of (codes "wrong horse battery")) (key_of secret) ≡ false
unfolding text_eq
wrong_password = refl

abbrev key : Bytes
key = fit 32 []

abbrev iv : Bytes
iv = fit 12 (7 ∷ [])

abbrev envelope : Bytes
envelope = 1 ∷ (iv ++ (fit 16 [] ++ secret))

secret_formed : is_well_formed secret ≡ true
unfolding pairs_from
secret_formed = refl

decrypt-encrypt_example : decrypt_secret toy envelope key ≡ some secret
unfolding encrypt_secret
decrypt-encrypt_example =
    decrypt-encrypt toy toy_laws secret key iv {envelope = envelope} secret_formed refl refl

truncated : decrypt_secret toy (fit 28 []) key ≡ none
unfolding decrypt_secret
truncated = refl

abbrev rounds : List Bytes
rounds = fit 26 (250 ∷ 31 ∷ []) ∷ fit 26 [] ∷ []

ways_uneven_example : ways 24 ≡ 7
ways_uneven_example = ways_uneven 24 (omega arith)

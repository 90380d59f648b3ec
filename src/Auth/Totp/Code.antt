-- ===== src/Auth/Totp/Code.antt =====
-- The form of the codes of the second factor.
use z_shield.Prelude.{
  ℕ, zero, suc, ◌+◌, ◌-◌, ◌*◌, ◌/◌, ◌%◌, ◌^◌, ◌<◌, ◌≤◌, ◌≡◌, refl, sym, ap, ◌∙◌, true, some, [],
  ◌∷◌, arith, All, ltb, length, Bool-cases, Option-cases, inl, inr,
}
use z_shield.Text.{Text, decimal, digits}
use z_shield.Text.Decimal.{IsDigit, decimal-IsDigit}
use z_shield.Crypto.{Bytes, get_or}
use z_shield.Auth.Totp.{
  offset_of, is_digit, every, is_code, pad_start, six_digits, truncated, counter_bytes, totp_code,
  base32_decode,
}

-- 10 to the power of `k`
abbrev ten : ℕ → ℕ
ten zero = 1
ten (suc k) = 10 * ten k

length-digits :
    (f k n : ℕ) (out : Text)
    → n < f
    → n < ten (suc k)
    → length (digits f n out) ≤ suc k + length out
unfolding digits
length-digits zero k n out h b = absurd (omega arith)
length-digits (suc f) zero n out h b = elim (Bool-cases (ltb n 10)) [
  | inl e ↦ rw e (omega arith)
  | inr e ↦ absurd (ground arith)
]
length-digits (suc f) (suc k) n out h b = elim (Bool-cases (ltb n 10)) [
  | inl e ↦ rw e (omega arith)
  | inr e ↦
      rw e (
        omega
          (arith, length-digits f k (n / 10) ((48 + n % 10) ∷ out) (ground arith) (omega arith)))
]

length-pad_start : (n : ℕ) (s : Text) → length (pad_start n s) ≡ n + length s
length-pad_start zero s = omega arith
length-pad_start (suc n) s = omega (arith, length-pad_start n s)

pad_start-IsDigit : (n : ℕ) (s : Text) → All IsDigit s → All IsDigit (pad_start n s)
pad_start-IsDigit zero s h = h
pad_start-IsDigit (suc n) s h = ((omega arith, omega arith), pad_start-IsDigit n s h)

every-IsDigit : (s : Text) → All IsDigit s → every is_digit s ≡ true
every-IsDigit [] h = refl
every-IsDigit (c ∷ s) h = ground (arith, every-IsDigit s h.1)

pub six_digits-is_code : (n : ℕ) → is_code (six_digits n) ≡ true
unfolding decimal six_digits
six_digits-is_code n =
    let s = decimal (n % 1000000) in
    let short = length-digits (suc (n % 1000000)) 5 (n % 1000000) [] (omega arith) (omega arith) in
    let long = length-pad_start (6 - length s) s in
    let shape =
      every-IsDigit (six_digits n)
        (pad_start-IsDigit (6 - length s) s (decimal-IsDigit (n % 1000000))) in
    ground (arith, short, long, shape)

-- Whatever the secret and the step, a code that is computed has the form that `verifyTotp` asks for:
-- six digits.
pub totp_code-is_code :
    (hmac_sha1 : Bytes → Bytes → Bytes) (secret : Text) (step : ℕ) (code : Text)
    → totp_code hmac_sha1 secret step ≡ some code
    → is_code code ≡ true
unfolding totp_code
totp_code-is_code hmac_sha1 secret step code h = elim (Option-cases (base32_decode secret)) [
  | inl e ↦ absurd (ground arith)
  | inr (key, e) ↦
      let n = truncated (hmac_sha1 key (counter_bytes step)) in
      let same : six_digits n ≡ code = ground arith in ap is_code (sym same) ∙ six_digits-is_code n
]

get_or-lt : (bytes : Bytes) (i : ℕ) → All (λ b. b < 256) bytes → get_or 0 bytes i < 256
get_or-lt [] i h = omega arith
get_or-lt (b ∷ bytes) zero h = h.0
get_or-lt (b ∷ bytes) (suc i) h = get_or-lt bytes i h.1

-- The four bytes that the truncation reads lie inside a digest of twenty bytes, and the number that
-- they make has 31 bits: the operators on signed 32-bit words give no negative number.
pub truncated_bounds :
    (digest : Bytes)
    → length digest ≡ 20
    → All (λ b. b < 256) digest
    → (offset_of digest + 3 < length digest) × (truncated digest < 2 ^ 31)
unfolding truncated
truncated_bounds digest long bytes =
    let i = offset_of digest in
    (
      omega arith,
      omega (
        arith,
        get_or-lt digest i bytes,
        get_or-lt digest (i + 1) bytes,
        get_or-lt digest (i + 2) bytes,
        get_or-lt digest (i + 3) bytes,
      ),
    )

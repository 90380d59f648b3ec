-- ===== src/Text/Decimal.antt =====
-- `String(n)` has only digits, and distinct numbers have distinct texts.
use z_shield.Prelude.{
  ℕ, zero, suc, ◌+◌, ◌-◌, ◌*◌, ◌/◌, ◌%◌, ◌≤◌, ◌<◌, ◌≡◌, sym, ap, ◌∙◌, [], ◌∷◌, arith, All, ltb,
  Bool-cases, inl, inr,
}
use z_shield.Text.{Text, decimal, digits}
use z_shield.Text.Lines.{Lacks}

-- The number that a text of digits denotes, after the number `a`.
abbrev pub value_from : ℕ → Text → ℕ
value_from a [] = a
value_from a (c ∷ s) = value_from (a * 10 + (c - 48)) s

value_from-digits :
    (f n : ℕ) (out : Text) → n < f → value_from 0 (digits f n out) ≡ value_from n out
unfolding digits
value_from-digits zero n out h = absurd (omega arith)
value_from-digits (suc f) n out h = elim (Bool-cases (ltb n 10)) [
  | inl e ↦ rw e (ap (λ k. value_from k out) (omega arith))
  | inr e ↦ rw e (
      value_from-digits f (n / 10) ((48 + n % 10) ∷ out) (ground arith)
      ∙ ap (λ k. value_from k out) (omega arith))
]

pub value_from-decimal : (n : ℕ) → value_from 0 (decimal n) ≡ n
unfolding decimal
value_from-decimal n = value_from-digits (suc n) n [] (omega arith)

pub decimal_injective : (n m : ℕ) → decimal n ≡ decimal m → n ≡ m
decimal_injective n m e = sym (value_from-decimal n) ∙ ap (value_from 0) e ∙ value_from-decimal m

abbrev pub IsDigit : ℕ → Type 0
IsDigit c = (48 ≤ c) × (c ≤ 57)

digits-IsDigit : (f n : ℕ) (out : Text) → All IsDigit out → All IsDigit (digits f n out)
unfolding digits
digits-IsDigit zero n out h = h
digits-IsDigit (suc f) n out h = elim (Bool-cases (ltb n 10)) [
  | inl e ↦ rw e ((omega arith, ground arith), h)
  | inr e ↦ rw e (digits-IsDigit f (n / 10) ((48 + n % 10) ∷ out) ((omega arith, omega arith), h))
]

IsDigit-Lacks : (c : ℕ) (s : Text) → c < 48 → All IsDigit s → Lacks c s
IsDigit-Lacks c [] h k = tt
IsDigit-Lacks c (a ∷ s) h k = (omega arith, IsDigit-Lacks c s h k.1)

pub decimal-Lacks : (c n : ℕ) → c < 48 → Lacks c (decimal n)
unfolding decimal
decimal-Lacks c n h = IsDigit-Lacks c (decimal n) h (digits-IsDigit (suc n) n [] tt)

pub decimal-IsDigit : (n : ℕ) → All IsDigit (decimal n)
unfolding decimal
decimal-IsDigit n = digits-IsDigit (suc n) n [] tt

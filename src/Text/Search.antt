-- ===== src/Text/Search.antt =====
-- `indexOf` of a buffer, and the bounds of what it finds.
use mathlib.Core.Option
use z_shield.Prelude.{
  ℕ, zero, suc, ◌+◌, ◌-◌, ◌≤◌, ◌≡◌, Bool, true, false, ◌&&◌, Option, none, some, List, [], ◌∷◌,
  arith, ◌==◌, if◌then◌else◌, length, Bool-cases, Option-cases, inl, inr,
}
use z_shield.Text.{Text, take, drop}

unfoldable pub starts_with : Text → Text → Bool
starts_with [] s = true
starts_with (p ∷ ps) [] = false
starts_with (p ∷ ps) (c ∷ s) = p == c && starts_with ps s

unfoldable pub index_in : Text → Text → Option ℕ
unfolding starts_with
index_in p [] = if starts_with p [] then some 0 else none
index_in p (c ∷ s) =
    let rest = index_in p s in if starts_with p (c ∷ s) then some 0 else Option.map suc rest

-- `s.indexOf(p, from)`
unfoldable pub index_from : Text → ℕ → Text → Option ℕ
unfolding index_in
index_from p from s = Option.map (λ n. from + n) (index_in p (drop from s))

-- `s.subarray(start, end)`
unfoldable pub slice {ℓ} : {A : Type ℓ} → ℕ → ℕ → List A → List A
unfolding take drop
slice start end s = drop start (take end s)

starts_with-bound : (p s : Text) → starts_with p s ≡ true → length p ≤ length s
unfolding starts_with
starts_with-bound [] s h = omega arith
starts_with-bound (p ∷ ps) [] h = absurd (ground arith)
starts_with-bound (p ∷ ps) (c ∷ s) h = ground (arith, starts_with-bound ps s)

pub index_in-bound : (p s : Text) {n : ℕ} → index_in p s ≡ some n → n + length p ≤ length s
unfolding index_in
index_in-bound p [] h = ground (arith, starts_with-bound p [])
index_in-bound p (c ∷ s) {n} h = elim (Bool-cases (starts_with p (c ∷ s))) [
  | inl e ↦ ground (arith, starts_with-bound p (c ∷ s) e)
  | inr e ↦ elim (Option-cases (index_in p s)) [
    | inl f ↦ absurd (ground arith)
    | inr (m, f) ↦ ground (arith, index_in-bound p s {n = m} f)
  ]
]

length-drop : (n : ℕ) (s : Text) → length (drop n s) ≡ length s - n
unfolding drop
length-drop zero s = omega arith
length-drop (suc n) [] = omega arith
length-drop (suc n) (c ∷ s) = omega (arith, length-drop n s)

-- What is found from a position on lies at or after it, and all of it in the text.
pub index_from-bounds :
    (p : Text) (from : ℕ) (s : Text) {n : ℕ}
    → index_from p from s ≡ some n
    → (from ≤ n) × (n + length p ≤ from + (length s - from))
unfolding index_from
index_from-bounds p from s {n} h = elim (Option-cases (index_in p (drop from s))) [
  | inl e ↦ absurd (ground arith)
  | inr (m, e) ↦
      let low = index_in-bound p (drop from s) {n = m} e in
      let same : from + m ≡ n = ground arith in (omega arith, omega (arith, length-drop from s))
]

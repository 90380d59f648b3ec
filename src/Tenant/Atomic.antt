-- ===== src/Tenant/Atomic.antt =====
-- The identifiers that the program draws, and the transactions that they open.
use z_shield.Prelude.{
  ℕ, ◌≤◌, ◌≡◌, refl, sym, true, [], ◌∷◌, ◌++◌, arith, All, length, Bool-cases, inl, inr, Bool,
}
use mathlib.Core.List.{List, append_assoc}
use z_shield.Text.{Text, codes}
use z_shield.Text.Lines.{text_eq_refl}
use z_shield.Text.Slices.{take-append, drop-append}
use z_shield.Crypto.{Bytes, new_id, random_base32}
use z_shield.Crypto.Alphabet.{accepted_all, length-random_base32, random_base32-IsLetter}
use z_shield.Tenant.{Result, ok, err, with_tenant, is_id, settle, all_of, is_lower_alnum}

module _ {ℓ} {S A : Type ℓ} where
  settle-ok :
      (before : S) (out : Result A × S) (a : A) (s' : S)
      → settle before out ≡ (ok a, s')
      → out ≡ (ok a, s')
  unfolding settle
  settle-ok before (ok b, after) a s' h = h
  settle-ok before (err f, after) a s' h = cc

  -- A transaction that ends in a result ran on an identifier of the right form, and its body gave that result.
  pub with_tenant-ok :
      (organization_id : Text) (work : S → Result A × S) (s s' : S) (a : A)
      → with_tenant organization_id work s ≡ (ok a, s')
      → (is_id (codes "org_") organization_id ≡ true) × (work s ≡ (ok a, s'))
  unfolding with_tenant
  with_tenant-ok organization_id work s s' a h =
      elim (Bool-cases (is_id (codes "org_") organization_id)) [
        | inl e ↦ (e, settle-ok s (work s) a s' (rw e at h))
        | inr e ↦ cc (rw e at h)
      ]

all_of-All : (p : ℕ → Bool) (s : Text) → All (λ c. p c ≡ true) s → all_of p s ≡ true
unfolding all_of
all_of-All p [] h = refl
all_of-All p (c ∷ s) h = ground (arith, all_of-All p s h.1)

is_id-append :
    (head tail : Text)
    → length tail ≡ 26
    → All (λ c. is_lower_alnum c ≡ true) tail
    → is_id head (head ++ tail) ≡ true
unfolding is_id
is_id-append head tail h k =
    rw (take-append (length head) head tail refl, drop-append (length head) head tail refl)
      (ground (arith, text_eq_refl head, all_of-All is_lower_alnum tail k))

new_id_lem :
    (prefix : Text) (rounds : List Bytes)
    → new_id prefix rounds ≡ (prefix ++ (b'_' ∷ [])) ++ random_base32 26 rounds
unfolding new_id
new_id_lem prefix rounds = sym (append_assoc prefix (b'_' ∷ []) (random_base32 26 rounds))

-- Every identifier that is drawn, once 26 of the random bytes are accepted, has the form that the
-- framed transactions require, for any prefix.
pub new_id-is_id :
    (prefix : Text) (rounds : List Bytes)
    → 26 ≤ accepted_all rounds
    → is_id (prefix ++ (b'_' ∷ [])) (new_id prefix rounds) ≡ true
new_id-is_id prefix rounds h = rw new_id_lem (
    is_id-append (prefix ++ (b'_' ∷ [])) (random_base32 26 rounds)
      (omega (arith, length-random_base32 26 rounds)) (random_base32-IsLetter 26 rounds))

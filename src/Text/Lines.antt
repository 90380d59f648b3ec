-- ===== src/Text/Lines.antt =====
-- `split` undoes `join` on parts without the separator.
use z_shield.Prelude.{
  ℕ, ◌≡◌, ◌≢◌, refl, sym, ap, ◌∙◌, true, List, Option, none, some, Bool, false, [], ◌∷◌, ◌++◌,
  arith, All, ◌↔◌, String,
}
use Prim.Native.Char.{code}
use mathlib.Core.Path.{ap₂}
use text.Mathlib.TextEquality.{Char-path}
use z_shield.Text.{Text, split, join, push_head, text_eq, codes}

-- No code unit of the text is `c`.
abbrev pub Lacks : ℕ → Text → Type 0
Lacks c s = All (λ a. a ≢ c) s

split-append : (c : ℕ) (p rest : Text) → Lacks c p → split c (p ++ (c ∷ rest)) ≡ p ∷ split c rest
unfolding split push_head
split-append c [] rest h = ground arith
split-append c (a ∷ p) rest h = ground (arith, split-append c p rest h.1)

split-Lacks : (c : ℕ) (p : Text) → Lacks c p → split c p ≡ p ∷ []
unfolding split push_head
split-Lacks c [] h = refl
split-Lacks c (a ∷ p) h = ground (arith, split-Lacks c p h.1)

pub split-join :
    (c : ℕ) (p : Text) (ps : List Text)
    → All (Lacks c) (p ∷ ps)
    → split c (join c (p ∷ ps)) ≡ p ∷ ps
unfolding join
split-join c p [] h = split-Lacks c p h.0
split-join c p (q ∷ ps) h =
    split-append c p (join c (q ∷ ps)) h.0 ∙ ap (◌∷◌ p) (split-join c q ps h.1)

-- Two lists of parts that are joined to the same text are the same, if no part has the separator.
pub join_injective :
    (c : ℕ) (p q : Text) (ps qs : List Text)
    → All (Lacks c) (p ∷ ps)
    → All (Lacks c) (q ∷ qs)
    → join c (p ∷ ps) ≡ join c (q ∷ qs)
    → Path (List Text) (p ∷ ps) (q ∷ qs)
join_injective c p q ps qs h k e = sym (split-join c p ps h) ∙ ap (split c) e ∙ split-join c q qs k

pub text_eq_iff : (s t : Text) → (text_eq s t ≡ true) ↔ (s ≡ t)
unfolding text_eq
text_eq_iff [] [] = (λ h. refl, λ h. refl)
text_eq_iff [] (b ∷ t) = (λ h. cc, λ h. cc)
text_eq_iff (a ∷ s) [] = (λ h. cc, λ h. cc)
text_eq_iff (a ∷ s) (b ∷ t) =
    let ih = text_eq_iff s t in (λ h. ground (arith, ih), λ h. ground (arith, ih))

cons_eq : (a b : ℕ) (s t : Text) → Path Text (a ∷ s) (b ∷ t) → (a ≡ b) × (s ≡ t)
cons_eq a b s t h = (cc, cc)

pub codes_injective : (s t : String) → codes s ≡ codes t → s ≡ t
codes_injective String.[] String.[] h = refl
codes_injective String.[] (String.◌∷◌ d t) h = cc
codes_injective (String.◌∷◌ c s) String.[] h = cc
codes_injective (String.◌∷◌ c s) (String.◌∷◌ d t) h =
    let (first, rest) = cons_eq (code c) (code d) (codes s) (codes t) h in
    ap₂ String.◌∷◌ (Char-path c d first) (codes_injective s t rest)

pub text_eq_refl : (s : Text) → text_eq s s ≡ true
text_eq_refl s = (text_eq_iff s s).1 refl

-- `value = $1` in SQL, which is never true of NULL.
abbrev pub opt_eq : Option Text → Text → Bool
opt_eq none s = false
opt_eq (some t) s = text_eq t s

pub text_eq_sym_true : (s t : Text) → text_eq s t ≡ true → text_eq t s ≡ true
text_eq_sym_true s t h = ground (arith, text_eq_iff s t, text_eq_iff t s)

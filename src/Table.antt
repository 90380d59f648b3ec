-- ===== src/Table.antt =====
-- SQL statements over a table, which is the list of its rows.
pub mod Keys
pub mod Rows
pub mod Upsert
use z_shield.Prelude.{
  ℕ, suc, ◌≡◌, refl, Bool, true, false, Option, none, some, List, [], ◌∷◌, ◌++◌, arith,
  if◌then◌else◌, Bool-cases, inl, inr, All,
}
use mathlib.Core.Option
use mathlib.Core.Path.{subst}

module _ {ℓ} {A : Type ℓ} where
  -- UPDATE … SET f WHERE p
  unfoldable pub update_where : (A → Bool) → (A → A) → List A → List A
  update_where p f [] = []
  update_where p f (r ∷ rows) = (if p r then f r else r) ∷ update_where p f rows

  -- DELETE … WHERE p
  unfoldable pub delete_where : (A → Bool) → List A → List A
  delete_where p [] = []
  delete_where p (r ∷ rows) = let rest = delete_where p rows in if p r then rest else r ∷ rest

  -- SELECT … WHERE p, and `rows[0]` of it
  unfoldable pub select_where : (A → Bool) → List A → List A
  select_where p [] = []
  select_where p (r ∷ rows) = let rest = select_where p rows in if p r then r ∷ rest else rest

  unfoldable pub find_where : (A → Bool) → List A → Option A
  find_where p [] = none
  find_where p (r ∷ rows) = if p r then some r else find_where p rows

  -- SELECT count(*) … WHERE p, also the `rowCount` of an UPDATE
  unfoldable pub count_where : (A → Bool) → List A → ℕ
  count_where p [] = 0
  count_where p (r ∷ rows) = let rest = count_where p rows in if p r then suc rest else rest

  -- EXISTS (SELECT … WHERE p)
  unfoldable pub exists_where : (A → Bool) → List A → Bool
  exists_where p [] = false
  exists_where p (r ∷ rows) = if p r then true else exists_where p rows

  -- INSERT, `none` where `clash` finds a row that a UNIQUE constraint does not allow beside it
  unfoldable pub insert_unique : (A → Bool) → A → List A → Option (List A)
  insert_unique clash row rows = if exists_where clash rows then none else some (rows ++ (row ∷ []))

  -- INSERT … ON CONFLICT DO UPDATE SET f, where `here` finds the row of the conflict; `spoilt` finds
  -- the rows that the updated row must not stand beside
  unfoldable pub upsert :
      (A → Bool) → (A → A) → (A → Bool) → (A → Bool) → A → List A → Option (List A)
  upsert here f spoilt clash row rows =
      if exists_where here rows
      then if exists_where spoilt rows then none else some (update_where here f rows)
      else insert_unique clash row rows

  pub find_where-holds :
      (p : A → Bool) (rows : List A) {r : A} → find_where p rows ≡ some r → p r ≡ true
  unfolding find_where
  find_where-holds p [] h = ground arith
  find_where-holds p (x ∷ rows) {r} h = elim (Bool-cases (p x)) [
    | inl e ↦ ground arith
    | inr e ↦ find_where-holds p rows (ground arith)
  ]

  pub find_where-none-not :
      (p : A → Bool) (rows : List A) → find_where p rows ≡ none → All (λ r. p r ≡ false) rows
  unfolding find_where
  find_where-none-not p [] h = tt
  find_where-none-not p (x ∷ rows) h = elim (Bool-cases (p x)) [
    | inl e ↦ ground arith
    | inr e ↦ (e, find_where-none-not p rows (ground arith))
  ]

  -- A predicate on the key of a row is found again in a table that was updated, if the update
  -- keeps the key.
  pub find_where-update :
      (q p : A → Bool) (f : A → A) (rows : List A)
      → ((r : A) → q (f r) ≡ q r)
      → find_where q (update_where p f rows)
        ≡ Option.map (λ r. if p r then f r else r) (find_where q rows)
  unfolding find_where update_where
  find_where-update q p f [] keep = refl
  find_where-update q p f (x ∷ rows) keep =
      ground (arith, keep x, find_where-update q p f rows keep)

module _ {ℓ κ} {A : Type ℓ} (P : A → Type κ) where
  pub find_where-All :
      (p : A → Bool) (rows : List A) {r : A} → All P rows → find_where p rows ≡ some r → P r
  unfolding find_where
  find_where-All p [] h e = cc
  find_where-All p (x ∷ rows) {r} h e = elim (Bool-cases (p x)) [
    | inl t ↦ subst P (ground arith) h.0
    | inr t ↦ find_where-All p rows h.1 (ground arith)
  ]

  pub All-update_where :
      (p : A → Bool) (f : A → A) (rows : List A)
      → All P rows
      → ((r : A) → p r ≡ true → P r → P (f r))
      → All P (update_where p f rows)
  unfolding update_where
  All-update_where p f [] h k = tt
  All-update_where p f (x ∷ rows) h k = (
    elim (Bool-cases (p x)) [ inl t ↦ rw t (k x t h.0) | inr t ↦ rw t h.0 ],
    All-update_where p f rows h.1 k,
  )

  pub All-delete_where : (p : A → Bool) (rows : List A) → All P rows → All P (delete_where p rows)
  unfolding delete_where
  All-delete_where p [] h = tt
  All-delete_where p (x ∷ rows) h = elim (Bool-cases (p x)) [
    | inl t ↦ rw t (All-delete_where p rows h.1)
    | inr t ↦ rw t (h.0, All-delete_where p rows h.1)
  ]

  pub All-append : (xs ys : List A) → All P xs → All P ys → All P (xs ++ ys)
  All-append [] ys h k = k
  All-append (x ∷ xs) ys h k = (h.0, All-append xs ys h.1 k)

module _ {ℓ κ μ} {A : Type ℓ} (P : A → Type κ) (Q : A → Type μ) where
  -- What every row satisfies after an UPDATE, from what it satisfied before.
  pub All-updated :
      (p : A → Bool) (f : A → A) (rows : List A)
      → All P rows
      → ((r : A) → P r → Q (if p r then f r else r))
      → All Q (update_where p f rows)
  unfolding update_where
  All-updated p f [] h k = tt
  All-updated p f (x ∷ rows) h k = (k x h.0, All-updated p f rows h.1 k)

  pub All-implies : (rows : List A) → All P rows → ((r : A) → P r → Q r) → All Q rows
  All-implies [] h k = tt
  All-implies (x ∷ rows) h k = (k x h.0, All-implies rows h.1 k)

module _ {ℓ μ} {A : Type ℓ} (Q : A → Type μ) where
  -- What every row satisfies after an UPDATE, whatever it was before.
  pub All-update_where_any :
      (p : A → Bool) (f : A → A) (rows : List A)
      → ((r : A) → Q (if p r then f r else r))
      → All Q (update_where p f rows)
  unfolding update_where
  All-update_where_any p f [] k = tt
  All-update_where_any p f (x ∷ rows) k = (k x, All-update_where_any p f rows k)

-- ===== src/Table/Upsert.antt =====
-- The row that an INSERT leaves, also one with ON CONFLICT DO UPDATE.
use z_shield.Prelude.{
  ◌≡◌, refl, sym, ap, ◌∙◌, ◌⊎◌, inl, inr, Bool, true, false, none, some, List, [], ◌∷◌, ◌++◌, arith,
  Bool-cases,
}
use z_shield.Table.{update_where, find_where, exists_where, insert_unique, upsert}
use z_shield.Table.Rows.{find_where-append_none}

module _ {ℓ} {A : Type ℓ} where
  pub insert_unique-some :
      (clash : A → Bool) (row : A) (rows rows' : List A)
      → insert_unique clash row rows ≡ some rows'
      → (exists_where clash rows ≡ false) × (rows' ≡ rows ++ (row ∷ []))
  unfolding insert_unique
  insert_unique-some clash row rows rows' h = elim (Bool-cases (exists_where clash rows)) [
    | inl e ↦ absurd (ground arith)
    | inr e ↦ (e, ground arith)
  ]

module _ {ℓ} {A : Type ℓ} (here q : A → Bool) (f : A → A) (spoilt : A → Bool) where
  -- the first row of a condition that the updated rows meet, and that no other row may meet
  update_where-found :
      (rows : List A)
      → ((r : A) → here r ≡ true → q (f r) ≡ true)
      → ((r : A) → here r ≡ false → q r ≡ true → spoilt r ≡ true)
      → exists_where here rows ≡ true
      → exists_where spoilt rows ≡ false
      → (r : A) × (here r ≡ true) × (find_where q (update_where here f rows) ≡ some (f r))
  unfolding update_where find_where exists_where
  update_where-found [] k n h e = absurd (ground arith)
  update_where-found (x ∷ rows) k n h e = elim (Bool-cases (here x)) [
    | inl t ↦ (x, t, ground (arith, k x t))
    | inr t ↦
        let (r, hit, found) = update_where-found rows k n (ground arith) (ground arith) in
        (r, hit, ground (arith, found, n x t, Bool-cases (q x)))
  ]

  -- What a condition finds after an upsert: the row that was updated, or the one inserted.
  pub upsert-found :
      (clash : A → Bool) (row : A) (rows rows' : List A)
      → ((r : A) → here r ≡ true → q (f r) ≡ true)
      → ((r : A) → here r ≡ false → q r ≡ true → spoilt r ≡ true)
      → ((r : A) → q r ≡ true → (here r ≡ true) ⊎ (clash r ≡ true))
      → q row ≡ true
      → upsert here f spoilt clash row rows ≡ some rows'
      → ((r : A) × (here r ≡ true) × (find_where q rows' ≡ some (f r)))
        ⊎ (find_where q rows' ≡ some row)
  unfolding upsert insert_unique find_where exists_where
  upsert-found clash row rows rows' k n c own e = elim (Bool-cases (exists_where here rows)) [
    | inl t ↦ elim (Bool-cases (exists_where spoilt rows)) [
      | inl s ↦ absurd (ground arith)
      | inr s ↦
          let (r, hit, found) = update_where-found rows k n t s in
          let same : update_where here f rows ≡ rows' = ground arith in
          inl (r, hit, ap (find_where q) (sym same) ∙ found)
    ]
    | inr t ↦ elim (Bool-cases (exists_where clash rows)) [
      | inl s ↦ absurd (ground arith)
      | inr s ↦
          let same : rows ++ (row ∷ []) ≡ rows' = ground arith in
          inr (
            ap (find_where q) (sym same)
            ∙ find_where-append_none q rows (row ∷ []) (unmet rows t s)
            ∙ rw own)
    ]
  ]
    where
      unmet :
          (l : List A)
          → exists_where here l ≡ false
          → exists_where clash l ≡ false
          → find_where q l ≡ none
      unmet [] h s = refl
      unmet (x ∷ l) h s = ground (arith, unmet l, c x, Bool-cases (q x))

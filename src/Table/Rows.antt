-- ===== src/Table/Rows.antt =====
-- The row of a key: how it is found by other conditions, and after other statements.
use z_shield.Prelude.{
  ◌≡◌, ◌≢◌, refl, sym, ◌∙◌, Bool, true, false, Option, none, some, List, [], ◌∷◌, ◌++◌, arith, All,
  Bool-cases, inl, inr, if◌then◌else◌,
}
use z_shield.Text.{Text, text_eq}
use z_shield.Text.Lines.{text_eq_iff, text_eq_refl}
use z_shield.Table.{update_where, find_where, exists_where, find_where-update, All-append}
use z_shield.Table.Keys.{Unique}

module _ {ℓ} {A : Type ℓ} where
  pub find_where-append_some :
      (p : A → Bool) (xs ys : List A) {r : A}
      → find_where p xs ≡ some r
      → find_where p (xs ++ ys) ≡ some r
  unfolding find_where
  find_where-append_some p [] ys h = cc
  find_where-append_some p (x ∷ xs) ys {r} h =
      ground (arith, find_where-append_some p xs ys {r = r})

  pub find_where-append_none :
      (p : A → Bool) (xs ys : List A)
      → find_where p xs ≡ none
      → find_where p (xs ++ ys) ≡ find_where p ys
  unfolding find_where
  find_where-append_none p [] ys h = refl
  find_where-append_none p (x ∷ xs) ys h = ground (arith, find_where-append_none p xs ys)

  -- No row satisfies what implies the condition of an EXISTS that is false.
  pub find_where-none :
      (p q : A → Bool) (rows : List A)
      → ((r : A) → p r ≡ true → q r ≡ true)
      → exists_where q rows ≡ false
      → find_where p rows ≡ none
  unfolding find_where exists_where
  find_where-none p q [] h e = refl
  find_where-none p q (x ∷ rows) h e = ground (arith, h x, find_where-none p q rows h)

  pub exists_where-none :
      (q : A → Bool) (rows : List A) → All (λ r. q r ≡ false) rows → exists_where q rows ≡ false
  unfolding exists_where
  exists_where-none q [] h = refl
  exists_where-none q (x ∷ rows) h = ground (arith, exists_where-none q rows h.1)

  pub exists_where-All :
      (q : A → Bool) (rows : List A) → exists_where q rows ≡ false → All (λ r. q r ≡ false) rows
  unfolding exists_where
  exists_where-All q [] h = tt
  exists_where-All q (x ∷ rows) h = (ground arith, exists_where-All q rows (ground arith))

  pub exists_where-some :
      (p q : A → Bool) (rows : List A) {r : A}
      → find_where p rows ≡ some r
      → q r ≡ true
      → exists_where q rows ≡ true
  unfolding find_where exists_where
  exists_where-some p q [] h e = cc
  exists_where-some p q (x ∷ rows) {r} h e = ground (arith, exists_where-some p q rows {r = r})

module _ {ℓ} {A : Type ℓ} (key : A → Text) where
  -- An INSERT of a key that was not there.
  pub Unique-append :
      (rows : List A) (x : A)
      → All (λ s. text_eq (key s) (key x) ≡ false) rows
      → Unique key rows
      → Unique key (rows ++ (x ∷ []))
  Unique-append [] x h u = (tt, tt)
  Unique-append (y ∷ rows) x h u = (
    All-append (λ s. key s ≢ key y) rows (x ∷ []) u.0
        ((λ e. ground (arith, text_eq_iff (key y) (key x))), tt),
    Unique-append rows x h.1 u.1,
  )

  -- SELECT … WHERE key = k
  abbrev pub row_of : Text → List A → Option A
  row_of k rows = find_where (λ r. text_eq (key r) k) rows

  pub row_of-update :
      (k : Text) (p : A → Bool) (f : A → A) (rows : List A) {r : A}
      → ((s : A) → key (f s) ≡ key s)
      → row_of k rows ≡ some r
      → row_of k (update_where p f rows) ≡ some (if p r then f r else r)
  row_of-update k p f rows {r} same h =
      find_where-update (λ s. text_eq (key s) k) p f rows (λ s. rw (same s)) ∙ rw h

  -- The row of a key is found by any condition that it meets and that names the key.
  pub find_where-row_of :
      (k : Text) (q : A → Bool) (rows : List A) {r : A}
      → row_of k rows ≡ some r
      → ((s : A) → q s ≡ true → key s ≡ k)
      → q r ≡ true
      → find_where q rows ≡ some r
  unfolding find_where
  find_where-row_of k q [] h n t = cc
  find_where-row_of k q (x ∷ rows) {r} h n t =
      ground (arith, n x, text_eq_iff (key x) k, find_where-row_of k q rows {r = r})

  missing_key :
      (k : Text) (q : A → Bool) (rows : List A)
      → All (λ s. key s ≢ k) rows
      → ((s : A) → q s ≡ true → key s ≡ k)
      → find_where q rows ≡ none
  unfolding find_where
  missing_key k q [] h n = refl
  missing_key k q (x ∷ rows) h n = elim (Bool-cases (q x)) [
    | inl e ↦ absurd (h.0 (n x e))
    | inr e ↦ rw e (missing_key k q rows h.1 n)
  ]

  -- It is not found by one that it does not meet, if the key is unique.
  pub find_where-row_of-none :
      (k : Text) (q : A → Bool) (rows : List A) {r : A}
      → Unique key rows
      → row_of k rows ≡ some r
      → ((s : A) → q s ≡ true → key s ≡ k)
      → q r ≡ false
      → find_where q rows ≡ none
  unfolding find_where
  find_where-row_of-none k q [] u h n t = refl
  find_where-row_of-none k q (x ∷ rows) {r} u h n t = elim (Bool-cases (text_eq (key x) k)) [
    | inl e ↦
        let same : x ≡ r = ground arith in
        rw (same, t) (missing_key k q rows (rw ((text_eq_iff (key x) k).0 e) at u.0) n)
    | inr e ↦
        ground (arith, n x, text_eq_iff (key x) k, find_where-row_of-none k q rows {r = r} u.1)
  ]

  -- A row that was found by a condition is the row of its key, if the key is unique.
  pub row_of-find_where :
      (q : A → Bool) (rows : List A) {r : A}
      → Unique key rows
      → find_where q rows ≡ some r
      → row_of (key r) rows ≡ some r
  unfolding find_where
  row_of-find_where q [] u h = cc
  row_of-find_where q (x ∷ rows) {r} u h = elim (Bool-cases (q x)) [
    | inl e ↦ let same : x ≡ r = ground arith in rw same (rw text_eq_refl)
    | inr e ↦
        let rest : find_where q rows ≡ some r = ground arith in
        ground (
          arith,
          row_of-find_where q rows {r = r} u.1 rest,
          text_eq_iff (key x) (key r),
          not_here rows u.0 rest,
        )
  ]
    where
      not_here : (l : List A) → All (λ s. key s ≢ key x) l → find_where q l ≡ some r → key x ≢ key r
      not_here [] a e = cc
      not_here (y ∷ l) a e = elim (Bool-cases (q y)) [
        | inl t ↦ λ same. a.0 (let here : y ≡ r = ground arith in rw here (sym same))
        | inr t ↦ not_here l a.1 (ground arith)
      ]

-- ===== src/Table/Keys.antt =====
-- Rows that a key tells apart: a statement that names one key touches one row at most.
use z_shield.Prelude.{
  ℕ, ◌+◌, ◌≡◌, ◌≢◌, refl, sym, ◌∙◌, ◌⊎◌, inl, inr, Bool, true, false, some, List, [], ◌∷◌, arith,
  All, Bool-cases,
}
use z_shield.Text.{Text}
use z_shield.Table.{update_where, delete_where, find_where, count_where, All-delete_where}

abbrev pub to_ℕ : Bool → ℕ
to_ℕ true = 1
to_ℕ false = 0

module _ {ℓ} {A : Type ℓ} where
  -- UNIQUE (key)
  abbrev pub Unique : (A → Text) → List A → Type 0
  Unique key [] = Unit
  Unique key (r ∷ rows) = All (λ s. key s ≢ key r) rows × Unique key rows

  -- At most one row satisfies `p`.
  abbrev pub Sole : (A → Bool) → List A → Type 0
  Sole p [] = Unit
  Sole p (r ∷ rows) = ((p r ≡ false) × Sole p rows) ⊎ All (λ s. p s ≡ false) rows

  pub Unique-Sole :
      (key : A → Text) (k : Text) (p : A → Bool) (rows : List A)
      → ((r : A) → p r ≡ true → key r ≡ k)
      → Unique key rows
      → Sole p rows
  Unique-Sole key k p [] h u = tt
  Unique-Sole key k p (r ∷ rows) h u = elim (Bool-cases (p r)) [
    | inl e ↦ inr (others rows u.0 (h r e))
    | inr e ↦ inl (e, Unique-Sole key k p rows h u.1)
  ]
    where
      others : (l : List A) → All (λ s. key s ≢ key r) l → key r ≡ k → All (λ s. p s ≡ false) l
      others [] a e = tt
      others (s ∷ l) a e = (
        elim (Bool-cases (p s)) [ inl t ↦ absurd (a.0 (h s t ∙ sym e)) | inr t ↦ t ],
        others l a.1 e,
      )

  count_where-none :
      (p q : A → Bool) (f : A → A) (rows : List A)
      → All (λ s. p s ≡ false) rows
      → count_where q (update_where p f rows) ≡ count_where q rows
  unfolding count_where update_where
  count_where-none p q f [] h = refl
  count_where-none p q f (r ∷ rows) h = ground (arith, count_where-none p q f rows h.1)

  delete_where-none :
      (p q : A → Bool) (rows : List A)
      → All (λ s. p s ≡ false) rows
      → count_where q (delete_where p rows) ≡ count_where q rows
  unfolding count_where delete_where
  delete_where-none p q [] h = refl
  delete_where-none p q (r ∷ rows) h = ground (arith, delete_where-none p q rows h.1)

  found_here :
      (p : A → Bool) (x : A) (rows : List A) {r : A}
      → All (λ s. p s ≡ false) rows
      → find_where p (x ∷ rows) ≡ some r
      → (p x ≡ true) × (x ≡ r)
  unfolding find_where
  found_here p x rows {r} h e = elim (Bool-cases (p x)) [
    | inl t ↦ (t, ground arith)
    | inr t ↦ absurd (not_found rows h (ground arith))
  ]
    where
      not_found : (l : List A) → All (λ s. p s ≡ false) l → find_where p l ≡ some r → ⊥
      not_found [] a f = cc
      not_found (y ∷ l) a f = not_found l a.1 (ground arith)

  -- An UPDATE of one row moves a count by that row.
  pub count_where-update :
      (p q : A → Bool) (f : A → A) (rows : List A) {r : A}
      → Sole p rows
      → find_where p rows ≡ some r
      → count_where q (update_where p f rows) + to_ℕ (q r) ≡ count_where q rows + to_ℕ (q (f r))
  unfolding count_where update_where find_where
  count_where-update p q f [] s h = cc
  count_where-update p q f (x ∷ rows) {r} (inl (miss, s)) h =
      ground (arith, count_where-update p q f rows {r = r} s)
  count_where-update p q f (x ∷ rows) {r} (inr others) h =
      let (hit, same) = found_here p x rows others h in
      rw (← same) (ground (arith, count_where-none p q f rows others))

  -- A DELETE of one row takes it from a count.
  pub count_where-delete :
      (p q : A → Bool) (rows : List A) {r : A}
      → Sole p rows
      → find_where p rows ≡ some r
      → count_where q (delete_where p rows) + to_ℕ (q r) ≡ count_where q rows
  unfolding count_where delete_where find_where
  count_where-delete p q [] s h = cc
  count_where-delete p q (x ∷ rows) {r} (inl (miss, s)) h =
      ground (arith, count_where-delete p q rows {r = r} s)
  count_where-delete p q (x ∷ rows) {r} (inr others) h =
      let (hit, same) = found_here p x rows others h in
      rw (← same) (ground (arith, delete_where-none p q rows others))

  keys-update :
      (key : A → Text) (k : Text) (p : A → Bool) (f : A → A) (rows : List A)
      → ((r : A) → key (f r) ≡ key r)
      → All (λ s. key s ≢ k) rows
      → All (λ s. key s ≢ k) (update_where p f rows)
  unfolding update_where
  keys-update key k p f [] same h = tt
  keys-update key k p f (r ∷ rows) same h =
      (ground (arith, same r, h.0), keys-update key k p f rows same h.1)

  -- An UPDATE that leaves the key alone keeps it unique.
  pub Unique-update_where :
      (key : A → Text) (p : A → Bool) (f : A → A) (rows : List A)
      → ((r : A) → key (f r) ≡ key r)
      → Unique key rows
      → Unique key (update_where p f rows)
  unfolding update_where
  Unique-update_where key p f [] same u = tt
  Unique-update_where key p f (r ∷ rows) same u = (
    elim (Bool-cases (p r)) [
      | inl e ↦ rw e (rw (same r) (keys-update key (key r) p f rows same u.0))
      | inr e ↦ rw e (keys-update key (key r) p f rows same u.0)
    ],
    Unique-update_where key p f rows same u.1,
  )

  pub Unique-delete_where :
      (key : A → Text) (p : A → Bool) (rows : List A)
      → Unique key rows
      → Unique key (delete_where p rows)
  unfolding delete_where
  Unique-delete_where key p [] u = tt
  Unique-delete_where key p (r ∷ rows) u = elim (Bool-cases (p r)) [
    | inl e ↦ rw e (Unique-delete_where key p rows u.1)
    | inr e ↦
        rw e (All-delete_where (λ s. key s ≢ key r) p rows u.0, Unique-delete_where key p rows u.1)
  ]

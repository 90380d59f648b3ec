-- ===== src/Bans/Index.antt =====
-- The index of active bans, when the bans under one key are lifted.
use z_shield.Prelude.{
  ◌≡◌, refl, sym, ◌∙◌, ◌⊎◌, inl, inr, Bool, true, false, List, [], ◌∷◌, arith, All, Bool-cases,
}
use z_shield.Text.{Text, text_eq}
use z_shield.Text.Lines.{text_eq_iff}
use z_shield.Table.{update_where, exists_where, All-update_where_any}
use z_shield.Db.{lifted, Ban}
use z_shield.Bans.{is_active, same_key, server_key, active_like, index_holds}
use z_shield.Bans.Review.{lift_same}

text_eq_sym : (a b : Text) → text_eq a b ≡ text_eq b a
text_eq_sym a b = elim (Bool-cases (text_eq a b)) [
  | inl e ↦ e ∙ sym ((text_eq_iff b a).1 (sym ((text_eq_iff a b).0 e)))
  | inr e ↦ elim (Bool-cases (text_eq b a)) [
    | inl f ↦ absurd (ground (arith, (text_eq_iff a b).1 (sym ((text_eq_iff b a).0 f))))
    | inr f ↦ e ∙ sym f
  ]
]

pub same_key_sym : (a b : Ban) → same_key a b ≡ same_key b a
same_key_sym a b =
    rw (text_eq_sym a.organization_id b.organization_id, text_eq_sym a.scope b.scope)
      (rw
        (
          text_eq_sym a.identifier b.identifier,
          text_eq_sym (server_key a.server_id) (server_key b.server_id),
        )
        refl)

module _ {ℓ} {A : Type ℓ} (p : A → Bool) (f : A → A) where
  pub update_where-none :
      (rows : List A) → All (λ r. p r ≡ false) rows → update_where p f rows ≡ rows
  unfolding update_where
  update_where-none [] h = refl
  update_where-none (x ∷ rows) h = ground (arith, h.0, update_where-none rows h.1)

  pub exists_where-update :
      (q : A → Bool) (rows : List A)
      → All (λ r. (p r ≡ false) ⊎ (q (f r) ≡ false)) rows
      → exists_where q rows ≡ false
      → exists_where q (update_where p f rows) ≡ false
  unfolding exists_where update_where
  exists_where-update q [] h e = refl
  exists_where-update q (x ∷ rows) (inl miss, h) e =
      ground (arith, miss, exists_where-update q rows h)
  exists_where-update q (x ∷ rows) (inr out, h) e = elim (Bool-cases (p x)) [
    | inl t ↦ ground (arith, t, out, exists_where-update q rows h)
    | inr t ↦ ground (arith, t, exists_where-update q rows h)
  ]

pub lift_same-index :
    (ban : Ban) (rows : List Ban)
    → index_holds rows ≡ true
    → index_holds (lift_same ban rows) ≡ true
unfolding index_holds lift_same update_where
lift_same-index ban [] h = refl
lift_same-index ban (x ∷ rows) h =
    let rest : index_holds rows ≡ true = ground arith in
    let again = lift_same-index ban rows rest in
    elim (Bool-cases (active_like ban x)) [
      | inl e ↦ rw e again
      | inr e ↦ elim (Bool-cases (is_active x.status)) [
        | inr i ↦ rw (e, i) again
        | inl i ↦
            let alone : exists_where (active_like x) rows ≡ false = ground arith in
            let still =
              exists_where-update (active_like ban) (λ b. record b { status = lifted })
                (active_like x) rows (all_out rows) alone in
            rw (e, i, still) again
      ]
    ]
  where
    all_out :
        (l : List Ban)
        → All
            (λ r.
              (active_like ban r ≡ false) ⊎ (active_like x (record r { status = lifted }) ≡ false))
            l
    all_out [] = tt
    all_out (r ∷ l) = (inr refl, all_out l)

pub none_active :
    (ban : Ban) (rows : List Ban) → All (λ b. active_like ban b ≡ false) (lift_same ban rows)
unfolding lift_same
none_active ban rows =
    All-update_where_any (λ b. active_like ban b ≡ false) (active_like ban)
      (λ b. record b { status = lifted }) rows
      (λ b. elim (Bool-cases (active_like ban b)) [ inl e ↦ rw e refl | inr e ↦ rw e e ])

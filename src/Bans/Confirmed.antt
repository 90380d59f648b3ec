-- ===== src/Bans/Confirmed.antt =====
-- A pending ban that is confirmed meets no other active one under its key: the index of active bans
-- never refuses the review.
use mathlib.Core.Path.{subst}
use z_shield.Prelude.{
  ℕ, ◌≡◌, ◌≢◌, refl, sym, ap, ◌∙◌, ◌⊎◌, inl, inr, Bool, true, false, ◌&&◌, Option, none, some, List,
  [], ◌∷◌, arith, All, Bool-cases, Option-cases,
}
use z_shield.Text.{Text, text_eq}
use z_shield.Text.Lines.{text_eq_iff}
use z_shield.Table.{update_where, find_where, exists_where, insert_unique, All-updated}
use z_shield.Table.Keys.{Unique, Sole, Unique-Sole, Unique-update_where}
use z_shield.Table.Rows.{exists_where-none}
use z_shield.Tenant.{ok}
use z_shield.Db.{active, lifted, Ban, Db}
use z_shield.Middleware.{RequestActor}
use z_shield.Bans.{is_active, same_key, active_like, index_holds, is_pending_ban}
use z_shield.Bans.Review.{reviewed_as, set_reviewed, lift_same, confirm_ban, review_feedback}
use z_shield.Bans.Index.{
  same_key_sym, update_where-none, exists_where-update, lift_same-index, none_active,
}

module _ (actor : RequestActor) (id : Text) (now : ℕ) (ban : Ban) where
  abbrev hit : Ban → Bool
  hit = is_pending_ban actor.organization_id id

  abbrev OneWaiting : List Ban → Type 0
  OneWaiting rows = All (λ r. (hit r ≡ false) ⊎ (r ≡ ban)) rows

  OneWaiting-lift : (rows : List Ban) → OneWaiting rows → OneWaiting (lift_same ban rows)
  unfolding lift_same
  OneWaiting-lift rows w =
      All-updated (λ r. (hit r ≡ false) ⊎ (r ≡ ban)) (λ r. (hit r ≡ false) ⊎ (r ≡ ban))
        (active_like ban) (λ b. record b { status = lifted }) rows w
        (λ r k. elim (Bool-cases (active_like ban r)) [
          | inl e ↦ rw e (inl (ground arith))
          | inr e ↦ rw e k
        ])

  -- the index after the review of the one ban that is waiting
  set_reviewed-index :
      (rows : List Ban)
      → Sole hit rows
      → OneWaiting rows
      → All (λ b. active_like ban b ≡ false) rows
      → index_holds rows ≡ true
      → index_holds (set_reviewed active actor id now rows) ≡ true
  unfolding index_holds set_reviewed update_where
  set_reviewed-index [] s w a h = refl
  set_reviewed-index (x ∷ rows) (inl (miss, s)) w a h =
      let rest : index_holds rows ≡ true = ground arith in
      let again = set_reviewed-index rows s w.1 a.1 rest in
      elim (Bool-cases (is_active x.status)) [
        | inr i ↦ rw (miss, i) again
        | inl i ↦
            let alone : exists_where (active_like x) rows ≡ false = ground arith in
            let other : same_key x ban ≡ false = same_key_sym x ban ∙ ground (arith, a.0, i) in
            let still =
              exists_where-update hit (reviewed_as active actor now) (active_like x) rows
                (apart other rows w.1) alone in
            rw (miss, i, still) again
      ]
    where
      apart :
          same_key x ban ≡ false
          → (l : List Ban) → OneWaiting l
          → All (λ r. (hit r ≡ false) ⊎ (active_like x (reviewed_as active actor now r) ≡ false)) l
      apart other [] v = tt
      apart other (r ∷ l) (inl out, v) = (inl out, apart other l v)
      apart other (r ∷ l) (inr same, v) = (inr (ap (same_key x) same ∙ other), apart other l v)
  set_reviewed-index (x ∷ rows) (inr others) (inl miss, w) a h =
      rw (miss, update_where-none hit (reviewed_as active actor now) rows others) h
  set_reviewed-index (x ∷ rows) (inr others) (inr same, w) a h = elim (Bool-cases (hit x)) [
    | inr t ↦ rw (t, update_where-none hit (reviewed_as active actor now) rows others) h
    | inl t ↦
        let alone : exists_where (active_like (reviewed_as active actor now x)) rows ≡ false =
          exists_where-none (active_like (reviewed_as active actor now x)) rows
            (subst (λ b. All (λ r. active_like b r ≡ false) rows) (sym same) a.1) in
        let rest : index_holds rows ≡ true = ground arith in
        rw (t, update_where-none hit (reviewed_as active actor now) rows others, alone) rest
  ]

  OneWaiting-found :
      (rows : List Ban) → Unique (λ b. b.id) rows → find_where hit rows ≡ some ban → OneWaiting rows
  unfolding find_where
  OneWaiting-found [] u h = tt
  OneWaiting-found (x ∷ rows) u h = elim (Bool-cases (hit x)) [
    | inl t ↦
        let same : x ≡ ban = ground arith in
        (inr same, others rows u.0 ((text_eq_iff x.id id).0 (ground arith)))
    | inr t ↦ (inl t, OneWaiting-found rows u.1 (ground arith))
  ]
    where
      others :
          (l : List Ban)
          → All (λ s. s.id ≢ x.id) l
          → x.id ≡ id
          → All (λ r. (hit r ≡ false) ⊎ (r ≡ ban)) l
      others [] a e = tt
      others (r ∷ l) a e = (
        elim (Bool-cases (hit r)) [
          | inl t ↦ absurd (a.0 ((text_eq_iff r.id id).0 (ground arith) ∙ sym e))
          | inr t ↦ inl t
        ],
        others l a.1 e,
      )

  -- the rows after a confirmation
  confirmed-index :
      (rows : List Ban)
      → Unique (λ b. b.id) rows
      → index_holds rows ≡ true
      → find_where hit rows ≡ some ban
      → index_holds (set_reviewed active actor id now (lift_same ban rows)) ≡ true
  unfolding lift_same
  confirmed-index rows u h found =
      let lifted_rows = lift_same ban rows in
      set_reviewed-index lifted_rows
        (Unique-Sole (λ b. b.id) id hit lifted_rows
          (λ r t. (text_eq_iff r.id id).0 (ground (arith, t)))
          (Unique-update_where (λ b. b.id) (active_like ban) (λ b. record b { status = lifted })
            rows (λ b. refl) u))
        (OneWaiting-lift rows (OneWaiting-found rows u found)) (none_active ban rows)
        (lift_same-index ban rows h)

review_feedback-ok :
    (feedback_id : Text) (actor : RequestActor) (ban : Ban) (confirmed : Bool)
    (detector : Option Text) (db : Db)
    → exists_where
        (λ f. text_eq f.organization_id actor.organization_id && text_eq f.id feedback_id)
        db.detection_feedback
      ≡ false
    → (let out = review_feedback feedback_id actor ban confirmed detector db in
        (out.0 ≡ ok true) × (out.1.bans ≡ db.bans))
unfolding insert_unique
review_feedback-ok feedback_id actor ban confirmed none db fresh = (refl, refl)
review_feedback-ok feedback_id actor ban confirmed (some []) db fresh = (refl, refl)
review_feedback-ok feedback_id actor ban confirmed (some (c ∷ s)) db fresh = rw fresh (refl, refl)

-- The confirmation of a pending ban never meets the index of active bans, whatever else is active:
-- if the identifiers of bans are unique, the index held before, and the identifier of the feedback
-- is new, the transaction gives a result and the index holds after it.
pub confirm_ban-index :
    (feedback_id : Text) (actor : RequestActor) (id : Text) (now : ℕ) (db : Db)
    → Unique (λ b. b.id) db.bans
    → index_holds db.bans ≡ true
    → exists_where
        (λ f. text_eq f.organization_id actor.organization_id && text_eq f.id feedback_id)
        db.detection_feedback
      ≡ false
    → (done : Bool) × ((confirm_ban feedback_id actor id now db).0 ≡ ok done)
      × (index_holds (confirm_ban feedback_id actor id now db).1.bans ≡ true)
unfolding confirm_ban
confirm_ban-index feedback_id actor id now db u h fresh =
    elim (Option-cases (find_where (is_pending_ban actor.organization_id id) db.bans)) [
      | inl e ↦ (false, rw (confirm_ban, e) refl, rw (confirm_ban, e) h)
      | inr (ban, e) ↦
          let rows = set_reviewed active actor id now (lift_same ban db.bans) in
          let holds = confirmed-index actor id now ban db.bans u h e in
          let noted =
            review_feedback-ok feedback_id actor ban true ban.detector (record db { bans = rows })
              fresh in
          (
            true,
            rw (confirm_ban, e, holds) noted.0,
            rw (confirm_ban, e, holds) (ap index_holds noted.1 ∙ holds),
          )
    ]

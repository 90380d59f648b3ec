-- ===== src/Tenant/Transaction/Outcome.antt =====
-- What a transaction of `withTenant` leaves, whatever fails on its connection.
use z_shield.Prelude.{none, ◌≡◌, refl, ap, ◌∙◌, ◌⊎◌, inl, inr, true, false, some, arith, Bool-cases}
use z_shield.Text.{Text, codes}
use z_shield.Tenant.{Result, ok, err, Failure, is_id}
use z_shield.Tenant.Transaction.{Server, Laws, committing, trying, finishing, with_tenant_on}
use z_shield.Auth.Opening.{Result-cases}

module _ {S C A : Type 0} (server : Server S C) (laws : Laws server) (organization_id : Text)
    (work : C → Result A × C) where
  -- The body ran to its end inside of the frame, on the committed state, and all that it wrote is
  -- committed.
  pub record Applied (c c' : C) (value : A) : Type 0 where
    pub started : C
    pub ended : C
    pub framed : server.framed started ≡ some organization_id
    pub seen : server.pending started ≡ server.committed c
    pub ran : work started ≡ (ok value, ended)
    pub written : server.committed c' ≡ server.pending ended

  moved :
      {c c' d d' : C} {value : A}
      → Applied c c' value
      → server.committed c ≡ server.committed d
      → server.committed d' ≡ server.committed c'
      → Applied d d' value
  moved a from to = record {
    started = a.started;
    ended = a.ended;
    framed = a.framed;
    seen = a.seen ∙ from;
    ran = a.ran;
    written = to ∙ a.written;
  }

  -- What is committed when the block of the `try` ends with a result, or with an exception.
  abbrev Tried : C → Result A → C → Type 0
  Tried c r c' =
      ((a : A) × (r ≡ ok a) × Applied c c' a × (server.is_open c' ≡ false))
      ⊎ ((e : Failure) × (r ≡ err e)
          × ((server.committed c' ≡ server.committed c) ⊎ ((a : A) × Applied c c' a)))

  committing-Tried :
      (c d e : C) (a : A)
      → server.framed d ≡ some organization_id
      → server.pending d ≡ server.committed c
      → work d ≡ (ok a, e)
      → server.committed e ≡ server.committed c
      → Tried c
          (committing server organization_id work a e).0
          (committing server organization_id work a e).1
  unfolding committing
  committing-Tried c d e a framed seen ran kept =
      let applied : (c' : C) → server.committed c' ≡ server.pending e → Applied c c' a = λ c' w.
        record { started = d; ended = e; framed = framed; seen = seen; ran = ran; written = w } in
      elim (Result-cases (server.commit e).0) [
        | inl (u, answered) ↦
            let (written, closed) = laws.commit-answered e answered in
            rw answered (inl (a, refl, applied _ written, closed))
        | inr (f, failed) ↦ rw failed (elim (laws.commit-unanswered e) [
          | inl same ↦ inr (f, refl, inl (same ∙ kept))
          | inr written ↦ inr (f, refl, inr (a, applied _ written))
        ])
      ]

  -- What is committed when `withTenant` ends, with a result or with an exception.
  abbrev pub Outcome : C → Result A → C → Type 0
  Outcome c r c' =
      ((e : Failure) × (r ≡ err e) × (server.committed c' ≡ server.committed c))
      ⊎ ((a : A) × Applied c c' a
          × (is_id (codes "org_") organization_id ≡ true)
          × ((r ≡ ok a) ⊎ ((e : Failure) × (r ≡ err e))))

  module _ (queries : (c : C) → server.committed (work c).1 ≡ server.committed c) where
    trying-Tried :
        (c : C)
        → server.is_open c ≡ false
        → Tried c (trying server organization_id work c).0 (trying server organization_id work c).1
    unfolding trying
    trying-Tried c closed =
        let b = (server.begin c).1 in
        let l = (server.set_local organization_id b).1 in
        let b_kept = laws.begin-committed c in
        let l_kept = laws.set_local-committed organization_id b ∙ b_kept in
        let w_kept = queries l ∙ l_kept in
        elim (Result-cases (server.begin c).0) [
          | inr (e, failed) ↦ rw failed (inr (e, refl, inl b_kept))
          | inl (u, begun) ↦ elim (Result-cases (server.set_local organization_id b).0) [
            | inr (e, failed) ↦ rw (begun, failed) (inr (e, refl, inl l_kept))
            | inl (v, set) ↦
                let framed =
                  laws.set_local-framed organization_id b (laws.begin-is_open c begun) set in
                let seen =
                  laws.set_local-pending organization_id b set
                  ∙ laws.begin-pending c closed begun in
                elim (Result-cases (work l).0) [
                  | inr (e, failed) ↦ rw (begun, set, failed) (inr (e, refl, inl w_kept))
                  | inl (a, ended) ↦
                      rw (begun, set, ended)
                        (committing-Tried c l (work l).1 a framed seen
                          (ap (λ r. (r, (work l).1)) ended) w_kept)
                ]
          ]
        ]

    finishing-Outcome :
        (c d : C) (r : Result A)
        → is_id (codes "org_") organization_id ≡ true
        → Tried c r d
        → Outcome c
            (finishing server organization_id work (r, d)).0
            (finishing server organization_id work (r, d)).1
          × (server.is_open (finishing server organization_id work (r, d)).1 ≡ false)
    unfolding finishing
    finishing-Outcome c d (ok a) form (inl (b, same, applied, closed)) = (
      inr (b, moved applied refl (laws.release-committed d), form, inl same),
      laws.release-is_open d ∙ closed,
    )
    finishing-Outcome c d (ok a) form (inr (e, same, kept)) = absurd (ground arith)
    finishing-Outcome c d (err e) form (inl (b, same, applied, closed)) = absurd (ground arith)
    finishing-Outcome c d (err e) form (inr (f, same, kept)) =
        let back : server.committed (server.release (server.rollback d).1) ≡ server.committed d =
          laws.release-committed (server.rollback d).1 ∙ laws.rollback-committed d in
        let ended = laws.release-is_open (server.rollback d).1 ∙ laws.rollback-is_open d in
        elim kept [
          | inl k ↦ (inl (e, refl, back ∙ k), ended)
          | inr (a, applied) ↦ (inr (a, moved applied refl back, form, inr (e, refl)), ended)
        ]

    with_tenant_on-settled :
        (c : C)
        → server.is_open c ≡ false
        → Outcome c
            (with_tenant_on server organization_id work c).0
            (with_tenant_on server organization_id work c).1
          × (server.is_open (with_tenant_on server organization_id work c).1 ≡ false)
    unfolding with_tenant_on
    with_tenant_on-settled c closed =
        let d = (server.connect c).1 in
        let kept = laws.connect-committed c in
        let still = laws.connect-is_open c ∙ closed in
        elim (Bool-cases (is_id (codes "org_") organization_id)) [
          | inr bad ↦ rw bad (inl (_, refl, refl), closed)
          | inl form ↦ elim (Result-cases (server.connect c).0) [
            | inr (e, failed) ↦ rw (form, failed) (inl (e, refl, kept), still)
            | inl (u, connected) ↦
                let (outcome, ended) =
                  finishing-Outcome d (trying server organization_id work d).1
                    (trying server organization_id work d).0 form (trying-Tried d still) in
                rw (form, connected)
                  (
                    elim outcome [
                      | inl (e, same, back) ↦ inl (e, same, back ∙ kept)
                      | inr (a, applied, _, answer) ↦ inr (a, moved applied kept refl, refl, answer)
                    ],
                    ended,
                  )
          ]
        ]

    -- Whichever of its statements fails, `withTenant` leaves no transaction open on its connection
    -- and no organization set on it, and the database is either as before, which is answered with
    -- an exception, or has all that the body wrote, which ran to its end on an identifier of the
    -- right form, inside of its frame and on the committed state. With a result it is the second,
    -- and an exception leaves the second only where the body had its result. The connection had no
    -- transaction open before, and the body does not change what is committed.
    pub with_tenant_on-Outcome :
        (c : C)
        → server.is_open c ≡ false
        → Outcome c
            (with_tenant_on server organization_id work c).0
            (with_tenant_on server organization_id work c).1
          × (server.is_open (with_tenant_on server organization_id work c).1 ≡ false)
          × (server.framed (with_tenant_on server organization_id work c).1 ≡ none)
    with_tenant_on-Outcome c closed =
        let (outcome, ended) = with_tenant_on-settled c closed in
        (outcome, ended, laws.is_open-framed _ ended)

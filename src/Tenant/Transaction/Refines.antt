-- ===== src/Tenant/Transaction/Refines.antt =====
-- `with_tenant`, on which the components stand, is `withTenant` where the database answers.
use z_shield.Prelude.{◌≡◌, refl, sym, ap, ◌∙◌, false, some, Bool-cases, inl, inr}
use z_shield.Text.{Text, codes}
use z_shield.Tenant.{Result, ok, err, is_id, with_tenant, settle}
use z_shield.Tenant.Transaction.{Server, Laws, committing, trying, finishing, with_tenant_on}
use z_shield.Auth.Opening.{Result-cases}

module _ {S C A : Type 0} (server : Server S C) (laws : Laws server) (organization_id : Text)
    (work : C → Result A × C) (on_state : S → Result A × S)
    (queries : (c : C) → server.committed (work c).1 ≡ server.committed c)
    (answers : (c : C)
      → server.framed c ≡ some organization_id
      → (work c).0 ≡ (on_state (server.pending c)).0)
    (writes : (c : C)
      → server.framed c ≡ some organization_id
      → server.pending (work c).1 ≡ (on_state (server.pending c)).1) where
  -- Where the connection is given and its statements are answered, `withTenant` with a body that
  -- does on what it sees what `on_state` does on a state, returns what `with_tenant` returns with
  -- `on_state` on the committed state, and commits the state that it gives.
  pub with_tenant_on-with_tenant :
      (c : C)
      → server.is_open c ≡ false
      → (server.connect c).0 ≡ ok tt
      → ((d : C) → (server.begin d).0 ≡ ok tt)
      → ((d : C) → (server.set_local organization_id d).0 ≡ ok tt)
      → ((d : C) → (server.commit d).0 ≡ ok tt)
      → ((with_tenant_on server organization_id work c).0
          ≡ (with_tenant organization_id on_state (server.committed c)).0)
        × (server.committed (with_tenant_on server organization_id work c).1
            ≡ (with_tenant organization_id on_state (server.committed c)).1)
  unfolding with_tenant_on trying committing finishing with_tenant settle
  with_tenant_on-with_tenant c closed connected begins sets commits =
      let d = (server.connect c).1 in
      let b = (server.begin d).1 in
      let l = (server.set_local organization_id b).1 in
      let e = (work l).1 in
      let framed =
        laws.set_local-framed organization_id b (laws.begin-is_open d (begins d)) (sets b) in
      let seen : server.pending l ≡ server.committed c =
        laws.set_local-pending organization_id b (sets b)
        ∙ laws.begin-pending d (laws.connect-is_open c ∙ closed) (begins d)
        ∙ laws.connect-committed c in
      let answered : (work l).0 ≡ (on_state (server.committed c)).0 =
        answers l framed ∙ ap (λ s. (on_state s).0) seen in
      let wrote : server.pending e ≡ (on_state (server.committed c)).1 =
        writes l framed ∙ ap (λ s. (on_state s).1) seen in
      let kept : server.committed e ≡ server.committed c =
        queries l
        ∙ laws.set_local-committed organization_id b
        ∙ laws.begin-committed d
        ∙ laws.connect-committed c in
      elim (Bool-cases (is_id (codes "org_") organization_id)) [
        | inr bad ↦ rw bad (refl, refl)
        | inl form ↦ elim (Result-cases (work l).0) [
          | inl (a, run) ↦
              let same : (on_state (server.committed c)).0 ≡ ok a = sym answered ∙ run in
              rw (form, connected, begins d, sets b, run, commits e, same)
                (
                  refl,
                  laws.release-committed (server.commit e).1
                      ∙ (laws.commit-answered e (commits e)).0
                      ∙ wrote,
                )
          | inr (f, run) ↦
              let same : (on_state (server.committed c)).0 ≡ err f = sym answered ∙ run in
              rw (form, connected, begins d, sets b, run, same)
                (
                  refl,
                  laws.release-committed (server.rollback e).1 ∙ laws.rollback-committed e ∙ kept,
                )
        ]
      ]

-- ===== src/Tenant/Transaction.antt =====
-- `withTenant` of lib/db.ts, statement by statement, over a connection that may fail.
pub mod Outcome
pub mod Refines
use z_shield.Prelude.{
  ℕ, ◌≡◌, refl, sym, ap, ◌∙◌, ◌⊎◌, inl, inr, Bool, true, false, Option, none, some, arith,
  if◌then◌else◌, Bool-cases,
}
use z_shield.Text.{Text, codes}
use z_shield.Tenant.{Result, ok, err, Failure, malformed_id, is_id, with_tenant, settle}
use z_shield.Auth.Opening.{Result-cases}

-- PostgreSQL and its driver, which are not in this repository: the states `C` of the database and
-- one connection of its pool, what can be seen of them, and the statements of a transaction.
-- `pending` is what a COMMIT would leave, `framed` the setting app.organization_id.
pub record Server (S C : Type 0) : Type 0 where
  pub committed : C → S
  pub pending : C → S
  pub is_open : C → Bool
  pub framed : C → Option Text
  pub connect : C → Result (Unit {0}) × C
  pub begin : C → Result (Unit {0}) × C
  pub set_local : Text → C → Result (Unit {0}) × C
  pub commit : C → Result (Unit {0}) × C
  pub rollback : C → Result (Unit {0}) × C
  pub release : C → C

module _ {S C : Type 0} (server : Server S C) where
  -- What PostgreSQL documents of them: no statement but COMMIT changes what is committed, a COMMIT
  -- that is not answered was applied or was not, a transaction that began sees what is committed,
  -- SET LOCAL lasts from there to its end, and no transaction stays open after a ROLLBACK, which
  -- fails only on a connection that is lost. All that sets app.organization_id is SET LOCAL.
  pub record Laws : Type 0 where
    pub connect-committed : (c : C) → server.committed (server.connect c).1 ≡ server.committed c
    pub connect-is_open : (c : C) → server.is_open (server.connect c).1 ≡ server.is_open c
    pub begin-committed : (c : C) → server.committed (server.begin c).1 ≡ server.committed c
    pub begin-pending :
        (c : C)
        → server.is_open c ≡ false
        → (server.begin c).0 ≡ ok tt
        → server.pending (server.begin c).1 ≡ server.committed c
    pub begin-is_open :
        (c : C) → (server.begin c).0 ≡ ok tt → server.is_open (server.begin c).1 ≡ true
    pub set_local-committed :
        (id : Text) (c : C) → server.committed (server.set_local id c).1 ≡ server.committed c
    pub set_local-pending :
        (id : Text) (c : C)
        → (server.set_local id c).0 ≡ ok tt
        → server.pending (server.set_local id c).1 ≡ server.pending c
    pub set_local-framed :
        (id : Text) (c : C)
        → server.is_open c ≡ true
        → (server.set_local id c).0 ≡ ok tt
        → server.framed (server.set_local id c).1 ≡ some id
    pub is_open-framed : (c : C) → server.is_open c ≡ false → server.framed c ≡ none
    pub commit-answered :
        (c : C)
        → (server.commit c).0 ≡ ok tt
        → (server.committed (server.commit c).1 ≡ server.pending c)
          × (server.is_open (server.commit c).1 ≡ false)
    pub commit-unanswered :
        (c : C)
        → (server.committed (server.commit c).1 ≡ server.committed c)
          ⊎ (server.committed (server.commit c).1 ≡ server.pending c)
    pub rollback-committed : (c : C) → server.committed (server.rollback c).1 ≡ server.committed c
    pub rollback-is_open : (c : C) → server.is_open (server.rollback c).1 ≡ false
    pub release-committed : (c : C) → server.committed (server.release c) ≡ server.committed c
    pub release-is_open : (c : C) → server.is_open (server.release c) ≡ server.is_open c

-- An exception skips the statements that follow.
abbrev pub before : {C A B : Type 0} → Result A × C → (A → C → Result B × C) → Result B × C
before (ok a, c) next = next a c
before (err e, c) next = (err e, c)

module _ {S C A : Type 0} (server : Server S C) (organization_id : Text)
    (work : C → Result A × C) where
  -- the block of the `try`, after the body
  unfoldable pub committing : A → C → Result A × C
  committing a c = before (server.commit c) (λ _ c'. (ok a, c'))

  -- the block of the `try`
  unfoldable pub trying : C → Result A × C
  unfolding committing
  trying c =
      before (server.begin c)
        (λ _ c1. before (server.set_local organization_id c1) (λ _ c2. before (work c2) committing))

  -- the `catch`, which leaves what ROLLBACK answers aside, and the `finally`
  unfoldable pub finishing : Result A × C → Result A × C
  finishing (ok a, c) = (ok a, server.release c)
  finishing (err e, c) = (err e, server.release (server.rollback c).1)

  -- `withTenant`
  unfoldable pub with_tenant_on : C → Result A × C
  unfolding trying finishing
  with_tenant_on c =
      if is_id (codes "org_") organization_id
      then before (server.connect c) (λ _ c'. finishing (trying c'))
      else (err malformed_id, c)

-- ===== src/Middleware/Keeps.antt =====
-- What a handler keeps true of the memberships, whether it returns or throws: one rule for each
-- way to build a handler.
use mathlib.Core.Path.{subst}
use z_shield.Prelude.{
  ltb, length, sym, ◌∙◌, ℕ, ◌≡◌, refl, Option, none, some, List, arith, Bool-cases, inl, inr,
}
use z_shield.Text.{Text, codes}
use z_shield.Crypto.{Node}
use z_shield.Rbac.{Role, Permission}
use z_shield.Tenant.{Result, ok, err, is_id, with_tenant, with_user, settle}
use z_shield.Db.{Membership, Db}
use z_shield.Auth.Sessions.{SessionContext, resolve_session, resolve_role}
use z_shield.Middleware.{
  Request, Exit, done, throw, Thrown, Handler, after, ◌>>=◌, pure, raise, run, verify_csrf, admit,
  actor_of, actor, assert_can, require,
}

module _ (Q : List Membership → Type 0) where
  pub record Keeps {A : Type 0} (m : Handler A) : Type 0 where
    pub at : (db : Db) → Q db.memberships → Q (m db).1.memberships

  after-Keeps :
      {A B : Type 0} (out : Exit A × Db) (k : A → Handler B)
      → Q out.1.memberships
      → ((a : A) → Keeps (k a))
      → Q (after out k).1.memberships
  after-Keeps (done a, db) k h keep = (keep a).at db h
  after-Keeps (throw e, db) k h keep = h

  pub Keeps-bind :
      {A B : Type 0} (m : Handler A) (k : A → Handler B)
      → Keeps m
      → ((a : A) → Keeps (k a))
      → Keeps (m >>= k)
  Keeps-bind m k hm hk = record { at = λ db h. after-Keeps (m db) k (hm.at db h) hk }

  pub Keeps-pure : {A : Type 0} (a : A) → Keeps (pure a)
  Keeps-pure a = record { at = λ db h. h }

  pub Keeps-raise : {A : Type 0} (e : Thrown) → Keeps (raise {A = A} e)
  Keeps-raise e = record { at = λ db h. h }

  settle-Keeps :
      {A : Type 0} (db : Db) (out : Result A × Db)
      → Q db.memberships
      → Q out.1.memberships
      → Q (run (λ _. settle db out) db).1.memberships
  unfolding settle
  settle-Keeps db (ok a, db') h k = k
  settle-Keeps db (err e, db') h k = h

  pub Keeps-with_tenant :
      {A : Type 0} (organization_id : Text) (work : Db → Result A × Db)
      → ((db : Db) → Q db.memberships → Q (work db).1.memberships)
      → Keeps (run (with_tenant organization_id work))
  unfolding with_tenant
  Keeps-with_tenant organization_id work keep = record {
    at = λ db h. elim (Bool-cases (is_id (codes "org_") organization_id)) [
      | inl e ↦ rw e (settle-Keeps db (work db) h (keep db h))
      | inr e ↦ rw e h
    ];
  }

  pub Keeps-resolve_role :
      (user_id organization_id : Text) → Keeps (run (resolve_role user_id organization_id))
  unfolding resolve_role with_user settle
  Keeps-resolve_role user_id organization_id = record {
    at = λ db h. elim (Bool-cases (is_id (codes "usr_") user_id)) [
      | inl e ↦ rw e h
      | inr e ↦ rw e h
    ];
  }

module _ (node : Node) where
  pub memberships-resolve_session :
      (token : Text) (now : ℕ) (db : Db)
      → (resolve_session node token now db).1.memberships ≡ db.memberships
  unfolding resolve_session
  memberships-resolve_session token now db = ground arith

  memberships-admit :
      (context : Option SessionContext) (db : Db)
      → (admit node context db).1.memberships ≡ db.memberships
  unfolding admit resolve_role with_user settle
  memberships-admit none db = refl
  memberships-admit (some c) db = ground arith

  memberships-actor_of :
      (token : Option Text) (now : ℕ) (db : Db)
      → (actor_of node token now db).1.memberships ≡ db.memberships
  unfolding actor_of
  memberships-actor_of none now db = refl
  memberships-actor_of (some token) now db = elim (Bool-cases (ltb (length token) 16)) [
    | inl e ↦ rw e
    | inr e ↦ rw e (
        memberships-admit (resolve_session node token now db).0
          (resolve_session node token now db).1
        ∙ memberships-resolve_session token now db)
  ]

  module _ (Q : List Membership → Type 0) where
    Keeps-verify_csrf : (request : Request) → Keeps Q (verify_csrf node request)
    unfolding verify_csrf
    Keeps-verify_csrf request = record { at = λ db h. ground arith }

    Keeps-actor : (request : Request) (now : ℕ) → Keeps Q (actor node request now)
    unfolding actor
    Keeps-actor request now = record {
      at = λ db h. subst Q (sym (memberships-actor_of request.session_cookie now db)) h;
    }

    Keeps-assert_can :
        (role : Role) (permission : Permission) → Keeps Q (assert_can node role permission)
    unfolding assert_can
    Keeps-assert_can role permission = record { at = λ db h. ground arith }

    -- The guard of a route changes no membership, whether it lets the request through or not.
    pub Keeps-require :
        (request : Request) (permission : Permission) (now : ℕ)
        → Keeps Q (require node request permission now)
    unfolding require
    Keeps-require request permission now = Keeps-bind Q _ _ (Keeps-verify_csrf request) (λ _.
        Keeps-bind Q _ _ (Keeps-actor request now)
          (λ a. Keeps-bind Q _ _ (Keeps-assert_can a.role permission) (λ _. Keeps-pure Q a)))

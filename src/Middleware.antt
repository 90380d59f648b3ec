-- ===== src/Middleware.antt =====
-- api/middleware.ts: the guard of the user's surface, its CSRF test and the mapping of exceptions.
pub mod Access
pub mod Pending
pub mod Keeps
use z_shield.Prelude.{
  ℕ, Bool, true, false, not, ◌&&◌, ◌||◌, Option, none, some, List, [], ◌∷◌, ltb, if◌then◌else◌,
  length,
}
use z_shield.Text.{Text, codes, text_eq}
use z_shield.Crypto.{Node, constant_time_equal}
use z_shield.Rbac.{Role, Permission, can}
use z_shield.Tenant.{Result, ok, err, Failure}
use z_shield.Db.{Db}
use z_shield.Auth.Sessions.{
  SessionRecord, AuthenticatedUser, SessionContext, resolve_session, resolve_role,
}

-- The parts of a request that the guard reads.
pub record Request : Type 0 where
  pub method : Text
  pub session_cookie : Option Text
  pub csrf_cookie : Option Text
  pub csrf_header : Option Text
  pub ip : Option Text

pub record RequestActor : Type 0 where
  pub session : SessionRecord
  pub user : AuthenticatedUser
  pub organization_id : Text
  pub role : Role

-- `UnauthorizedError`, `MfaRequiredError`, `CsrfError`, `ForbiddenError`, and any other exception
pub data Thrown : Type 0 where
  unauthorized mfa_missing csrf_failed : Thrown
  forbidden : Role → Permission → Thrown
  failure : Failure → Thrown

pub data Exit {ℓ} (A : Type ℓ) : Type ℓ where
  done : A → Exit A
  throw : Thrown → Exit A

-- A handler over the database; what was committed before an exception stays.
abbrev pub Handler : Type 0 → Type 0
Handler A = Db → Exit A × Db

abbrev pub after : {A B : Type 0} → Exit A × Db → (A → Handler B) → Exit B × Db
after (done a, db) k = k a db
after (throw e, db) k = (throw e, db)

infixl 5 ◌>>=◌ ◌>>◌
abbrev pub ◌>>=◌ : {A B : Type 0} → Handler A → (A → Handler B) → Handler B
◌>>=◌ m k db = after (m db) k

abbrev pub ◌>>◌ : {A B : Type 0} → Handler A → Handler B → Handler B
m >> n = m >>= λ _. n

abbrev pub pure : {A : Type 0} → A → Handler A
pure a db = (done a, db)

abbrev pub raise : {A : Type 0} → Thrown → Handler A
raise e db = (throw e, db)

abbrev settled : {A : Type 0} → Result A × Db → Exit A × Db
settled (ok a, db) = (done a, db)
settled (err e, db) = (throw (failure e), db)

abbrev pub run : {A : Type 0} → (Db → Result A × Db) → Handler A
run m db = settled (m db)

-- `SAFE_METHODS`
abbrev pub is_safe : Text → Bool
is_safe m = text_eq m (codes "GET") || (text_eq m (codes "HEAD") || text_eq m (codes "OPTIONS"))

module _ (node : Node) where
  -- the test of `verifyCsrf` on the cookie and the header
  unfoldable pub csrf_matches : Option Text → Option Text → Bool
  csrf_matches (some cookie) (some header) =
      not (ltb (length cookie) 16) && constant_time_equal node cookie header
  csrf_matches _ _ = false

  -- `verifyCsrf`
  unfoldable pub verify_csrf : Request → Handler (Unit {0})
  unfolding csrf_matches
  verify_csrf request db =
      if is_safe request.method
      then (done tt, db)
      else if csrf_matches request.csrf_cookie request.csrf_header
      then (done tt, db)
      else (throw csrf_failed, db)

  -- `actor`, after the session is resolved
  abbrev with_role : SessionContext → Text → Option Role → Handler RequestActor
  with_role context organization_id none = raise unauthorized
  with_role context organization_id (some role) = pure (record {
    session = context.session;
    user = context.user;
    organization_id = organization_id;
    role = role;
  })

  abbrev in_organization : SessionContext → Option Text → Handler RequestActor
  in_organization context none = raise unauthorized
  in_organization context (some organization_id) = do
    role ← run (resolve_role context.session.user_id organization_id)
    with_role context organization_id role

  unfoldable pub admit : Option SessionContext → Handler RequestActor
  admit none = raise unauthorized
  admit (some context) =
      if context.session.mfa_satisfied
      then in_organization context context.session.organization_id
      else raise mfa_missing

  -- `actor`
  unfoldable pub actor_of : Option Text → ℕ → Handler RequestActor
  unfolding admit
  actor_of none now db = (throw unauthorized, db)
  actor_of (some token) now db =
      if ltb (length token) 16
      then (throw unauthorized, db)
      else let (context, db') = resolve_session node token now db in admit context db'

  unfoldable pub actor : Request → ℕ → Handler RequestActor
  unfolding actor_of
  actor request now = actor_of request.session_cookie now

  -- `pendingActor`
  abbrev pending : Option SessionContext → Handler SessionContext
  pending none = raise unauthorized
  pending (some context) = pure context

  abbrev pending_of : Option Text → ℕ → Handler SessionContext
  pending_of none now db = (throw unauthorized, db)
  pending_of (some token) now db =
      let (context, db') = resolve_session node token now db in pending context db'

  unfoldable pub pending_actor : Request → ℕ → Handler SessionContext
  pending_actor request now = pending_of request.session_cookie now

  -- `assertCan`
  unfoldable pub assert_can : Role → Permission → Handler (Unit {0})
  assert_can role permission =
      if can role permission then pure tt else raise (forbidden role permission)

  -- `requireRead`
  unfoldable pub require_read : Request → Permission → ℕ → Handler RequestActor
  unfolding actor assert_can
  require_read request permission now = do
    a ← actor request now
    assert_can a.role permission
    pure a

  -- `require`
  unfoldable pub require : Request → Permission → ℕ → Handler RequestActor
  unfolding verify_csrf actor assert_can
  require request permission now = do
    verify_csrf request
    a ← actor request now
    assert_can a.role permission
    pure a

-- The status of `toHttpError`.
unfoldable pub to_http_error : Thrown → ℕ × Text
to_http_error unauthorized = (401, codes "unauthorized")
to_http_error mfa_missing = (403, codes "mfa_required")
to_http_error csrf_failed = (403, codes "csrf_failed")
to_http_error (forbidden role permission) = (403, codes "forbidden")
to_http_error (failure e) = (500, codes "internal")

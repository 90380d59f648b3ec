-- ===== src/Middleware/Pending.antt =====
-- A session that still has to show its second factor, at the guard.
use z_shield.Prelude.{ℕ, ◌+◌, ◌<◌, ◌≤◌, ◌≡◌, some, length, arith, Bool, ◌||◌, false, if◌then◌else◌}
use z_shield.Text.{Text}
use z_shield.Crypto.{Node}
use z_shield.Tenant.{ok}
use z_shield.Db.{Db}
use z_shield.Rbac.{Permission}
use z_shield.Auth.Sessions.{SessionRecord, SessionContext, session_ttl}
use z_shield.Auth.Login.{LoginInput, mfa_required, login}
use z_shield.Auth.Entry.{login-pending}
use z_shield.Middleware.{
  Request, done, throw, mfa_missing, csrf_failed, is_safe, csrf_matches, verify_csrf, admit,
  actor_of, actor, pending_actor, require_read, require,
}

-- For a token that a login gave out asking for the second factor, sent by a request in the
-- database that the login left, before the session expires: `actor`, `requireRead` and `require`
-- refuse the request, `require` for its CSRF token if that does not match, and otherwise for the
-- second factor. `pendingActor` admits it, as a session that has not shown the factor. The token
-- has sixteen characters or more.
pub mfa_required-guards :
    (node : Node) (same_email : Text → Text → Bool) (token id : Text) (now later : ℕ)
    (input : LoginInput) (db db' : Db) (t : Text) (s : SessionRecord) (request : Request)
    (permission : Permission)
    → login node same_email token id now input db ≡ (ok (mfa_required t s), db')
    → later < now + session_ttl
    → request.session_cookie ≡ some t
    → 16 ≤ length t
    → ((actor node request later db').0 ≡ throw mfa_missing)
      × ((require_read node request permission later db').0 ≡ throw mfa_missing)
      × ((require node request permission later db').0
          ≡ throw (
              if is_safe request.method || csrf_matches node request.csrf_cookie request.csrf_header
              then mfa_missing
              else csrf_failed))
      × (context : SessionContext) × ((pending_actor node request later db').0 ≡ done context)
      × (context.session.mfa_satisfied ≡ false)
unfolding actor actor_of admit require_read require verify_csrf pending_actor
mfa_required-guards node same_email token id now later input db db' t s request permission h early
      cookie long =
    let (context, resolved, unshown) =
      login-pending node same_email token id now later input db db' t s h early in
    (
      ground (arith, cookie, resolved, unshown),
      ground (arith, cookie, resolved, unshown),
      ground (arith, cookie, resolved, unshown),
      context,
      ground (arith, cookie, resolved),
      unshown,
    )

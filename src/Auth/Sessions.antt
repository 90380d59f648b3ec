-- ===== src/Auth/Sessions.antt =====
-- The sessions of `AuthService` in auth/sessions.ts. A session is found by the hash of its token.
use mathlib.Core.Option
use z_shield.Prelude.{
  ℕ, ◌+◌, Bool, true, not, ◌&&◌, ◌||◌, Option, none, some, List, [], ◌∷◌, ◌++◌, ltb, if◌then◌else◌,
  is_some,
}
use z_shield.Text.{Text, text_eq, take}
use z_shield.Table.{update_where, find_where, count_where, exists_where}
use z_shield.Crypto.{Node, hash_token}
use z_shield.Rbac.{Role}
use z_shield.Tenant.{Result, ok, err, violation, with_user}
use z_shield.Db.{User, Session, Membership, Db}

-- `SESSION_TTL_SECONDS * 1000`
abbrev pub session_ttl : ℕ
session_ttl = 43200000

pub record SessionRecord : Type 0 where
  pub id : Text
  pub user_id : Text
  pub organization_id : Option Text
  pub mfa_satisfied : Bool
  pub expires_at : ℕ

pub record AuthenticatedUser : Type 0 where
  pub user_id : Text
  pub email : Text
  pub display_name : Text
  pub email_verified : Bool
  pub mfa_enforced : Bool

pub record SessionContext : Type 0 where
  pub session : SessionRecord
  pub user : AuthenticatedUser

pub record SessionInput : Type 0 where
  pub user_id : Text
  pub mfa_satisfied : Bool
  pub organization_id : Option Text
  pub ip : Option Text
  pub user_agent : Option Text

abbrev pub is_member : Text → Text → Membership → Bool
is_member user_id organization_id m =
    text_eq m.user_id user_id
    && (text_eq m.organization_id organization_id && is_some m.accepted_at)

-- SELECT organization_id FROM memberships WHERE user_id = $2 AND accepted_at IS NOT NULL
-- ORDER BY created_at LIMIT 1, after the best row so far
abbrev earlier : Option Membership → Membership → Option Membership
earlier none m = some m
earlier (some b) m = if ltb m.created_at b.created_at then some m else some b

unfoldable pub first_membership : Text → Option Membership → List Membership → Option Membership
first_membership user_id best [] = best
first_membership user_id best (m ∷ rows) =
    first_membership user_id
      (if text_eq m.user_id user_id && is_some m.accepted_at then earlier best m else best) rows

-- COALESCE
abbrev pub coalesce {ℓ} : {A : Type ℓ} → Option A → Option A → Option A
coalesce (some a) other = some a
coalesce none other = other

unfoldable pub audit : Option Text → Option Text → Text → Option Text → Option Text → Db → Db
audit organization_id actor_user_id action target_id ip db = record db {
  audit_logs =
      db.audit_logs
      ++ (record {
        organization_id = organization_id;
        actor_user_id = actor_user_id;
        action = action;
        target_id = target_id;
        ip = ip;
      }
          ∷ []);
}

-- the row of a live session, of a user who is not deleted
abbrev pub is_live : ℕ → Text → List User → Session → Bool
is_live now hash users s =
    text_eq s.token_hash hash
    && (not (is_some s.revoked_at)
        && (ltb now s.expires_at
            && exists_where (λ u. text_eq u.id s.user_id && not (is_some u.deleted_at)) users))

module _ (node : Node) where
  -- `createSession`, with the token and the identifier that were drawn. The constraints on `id` and
  -- `token_hash` refuse a row that is not new.
  unfoldable pub insert_session : Text → Text → ℕ → SessionInput → Db → Result Session × Db
  insert_session token id now input db =
      let row : Session = record {
        id = id;
        user_id = input.user_id;
        token_hash = hash_token node token;
        organization_id = coalesce input.organization_id (
            Option.map (λ m. m.organization_id)
              (first_membership input.user_id none db.memberships));
        mfa_satisfied = input.mfa_satisfied;
        ip = input.ip;
        user_agent = Option.map (take 400) input.user_agent;
        last_seen_at = now;
        expires_at = now + session_ttl;
        revoked_at = none;
      } in
      if exists_where (λ s. text_eq s.id id || text_eq s.token_hash (hash_token node token))
        db.sessions
      then (err violation, db)
      else (ok row, record db { sessions = db.sessions ++ (row ∷ []) })

  abbrev pub session_record : Session → SessionRecord
  session_record s = record {
    id = s.id;
    user_id = s.user_id;
    organization_id = s.organization_id;
    mfa_satisfied = s.mfa_satisfied;
    expires_at = s.expires_at;
  }

  abbrev returned : Text → Result Session × Db → Result (Text × SessionRecord) × Db
  returned token (ok row, db) = (ok (token, session_record row), db)
  returned token (err e, db) = (err e, db)

  unfoldable pub create_session :
      Text → Text → ℕ → SessionInput → Db → Result (Text × SessionRecord) × Db
  unfolding insert_session with_user
  create_session token id now input db =
      returned token (with_user input.user_id (insert_session token id now input) db)

  -- `resolveSession`; the join finds the user of the session
  abbrev context_of : Session → Option User → Option SessionContext
  context_of s none = none
  context_of s (some u) = some (record {
    session = session_record s;
    user = record {
      user_id = s.user_id;
      email = u.email;
      display_name = u.display_name;
      email_verified = is_some u.email_verified_at;
      mfa_enforced = u.mfa_enforced;
    };
  })

  abbrev session_context : List User → Option Session → Option SessionContext
  session_context users none = none
  session_context users (some s) = context_of s (find_where (λ u. text_eq u.id s.user_id) users)

  unfoldable pub resolve_session : Text → ℕ → Db → Option SessionContext × Db
  resolve_session token now db =
      let found = find_where (is_live now (hash_token node token) db.users) db.sessions in
      let touched : Db = elim found [
        | none ↦ db
        | some s ↦ record db {
          sessions =
              update_where (λ r. text_eq r.id s.id) (λ r. record r { last_seen_at = now })
                db.sessions;
        }
      ] in
      (session_context db.users found, touched)

-- `resolveRole`
unfoldable pub role_in : Text → Text → Db → Option Role
role_in user_id organization_id db =
    Option.map (λ m. m.role) (find_where (is_member user_id organization_id) db.memberships)

unfoldable pub resolve_role : Text → Text → Db → Result (Option Role) × Db
unfolding with_user
resolve_role user_id organization_id db =
    with_user user_id (λ d. (ok (role_in user_id organization_id d), d)) db

-- `markMfaSatisfied`
unfoldable pub mark_mfa_satisfied : Text → Db → Db
mark_mfa_satisfied session_id db = record db {
  sessions =
      update_where (λ s. text_eq s.id session_id) (λ s. record s { mfa_satisfied = true })
        db.sessions;
}

-- `revokeSession`
unfoldable pub revoke_session : Text → ℕ → Db → Db
revoke_session session_id now db = record db {
  sessions =
      update_where (λ s. text_eq s.id session_id && not (is_some s.revoked_at))
        (λ s. record s { revoked_at = some now }) db.sessions;
}

-- `revokeAllSessions`; the number is the `rowCount`
abbrev is_other : Option Text → Session → Bool
is_other none s = true
is_other (some except) s = not (text_eq s.id except)

abbrev pub to_revoke : Text → Option Text → Session → Bool
to_revoke user_id except s =
    text_eq s.user_id user_id && (not (is_some s.revoked_at) && is_other except s)

unfoldable pub revoke_all_sessions : Text → Option Text → ℕ → Db → ℕ × Db
revoke_all_sessions user_id except now db = (
  count_where (to_revoke user_id except) db.sessions,
  record db {
    sessions =
        update_where (to_revoke user_id except) (λ s. record s { revoked_at = some now })
          db.sessions;
  },
)

-- `rotateSession`
unfoldable pub rotate_session :
    Node → Text → Text → ℕ → SessionContext → Db → Result (Text × SessionRecord) × Db
unfolding revoke_session create_session
rotate_session node token id now context db =
    create_session node token id now
      (record {
        user_id = context.session.user_id;
        mfa_satisfied = true;
        organization_id = context.session.organization_id;
        ip = none;
        user_agent = none;
      })
      (revoke_session context.session.id now db)

-- `switchOrganization`
abbrev switch : Text → Text → Text → Db → Result Bool × Db
switch session_id user_id organization_id db =
    let allowed = exists_where (is_member user_id organization_id) db.memberships in
    let hit = λ (s : Session). text_eq s.id session_id && allowed in
    (
      ok (ltb 0 (count_where hit db.sessions)),
      record db {
        sessions =
            update_where hit (λ s. record s { organization_id = some organization_id }) db.sessions;
      },
    )

unfoldable pub switch_organization : Text → Text → Text → Db → Result Bool × Db
unfolding with_user
switch_organization session_id user_id organization_id db =
    with_user user_id (switch session_id user_id organization_id) db

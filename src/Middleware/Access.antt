-- ===== src/Middleware/Access.antt =====
-- What a request has shown when the guard lets it through.
use mathlib.Core.Option
use z_shield.Prelude.{
  ℕ, ◌≡◌, refl, sym, ap, ◌∙◌, true, Option, none, some, arith, Bool-cases, Option-cases, inl, inr,
  ◌⊎◌,
}
use z_shield.Text.{Text}
use z_shield.Table.{find_where}
use z_shield.Crypto.{Node, hash_token}
use z_shield.Rbac.{Permission, can}
use z_shield.Tenant.{with_user, settle}
use z_shield.Db.{Session, Db}
use z_shield.Auth.Sessions.{
  is_member, is_live, resolve_session, resolve_role, role_in, SessionContext,
}
use z_shield.Auth.Resolution.{session_context-some}
use z_shield.Middleware.Keeps.{memberships-resolve_session}
use z_shield.Middleware.{
  Request, RequestActor, Exit, Thrown, done, throw, is_safe, csrf_matches, verify_csrf, admit,
  actor_of, actor, assert_can, require,
}

pub Exit-cases :
    {A : Type 0} (exit : Exit A) → ((a : A) × (exit ≡ done a)) ⊎ ((e : Thrown) × (exit ≡ throw e))
Exit-cases (done a) = inl (a, refl)
Exit-cases (throw e) = inr (e, refl)

module _ (node : Node) where
  -- The row of a live session whose token is the cookie, with its second factor shown, and a
  -- membership that gives the role.
  pub record Identified (request : Request) (now : ℕ) (db : Db) (a : RequestActor) : Type 0 where
    pub token : Text
    pub cookie : request.session_cookie ≡ some token
    pub row : Session
    pub live : find_where (is_live now (hash_token node token) db.users) db.sessions ≡ some row
    pub same_session : a.session.id ≡ row.id
    pub same_user : a.session.user_id ≡ row.user_id
    pub mfa : row.mfa_satisfied ≡ true
    pub organization : row.organization_id ≡ some a.organization_id
    pub member : role_in row.user_id a.organization_id db ≡ some a.role

  -- What `admit` lets through, on the database after the session was resolved.
  admit-done :
      (found : Option SessionContext) (db db' : Db) {a : RequestActor}
      → admit node found db ≡ (done a, db')
      → (context : SessionContext) × (found ≡ some context)
        × (a.session ≡ context.session)
        × (context.session.mfa_satisfied ≡ true)
        × (context.session.organization_id ≡ some a.organization_id)
        × (role_in context.session.user_id a.organization_id db ≡ some a.role)
  unfolding admit resolve_role with_user settle
  admit-done none db db' h = absurd (ground arith)
  admit-done (some context) db db' {a} h = elim (Option-cases context.session.organization_id) [
    | inl e ↦ absurd (ground arith)
    | inr (organization_id, e) ↦
        elim (Option-cases (role_in context.session.user_id organization_id db)) [
          | inl f ↦ absurd (ground arith)
          | inr (role, f) ↦
              let same : a.organization_id ≡ organization_id = ground arith in
              let given : a.role ≡ role = ground arith in
              (
                context,
                refl,
                ground arith,
                ground arith,
                ground arith,
                ap (λ o. role_in context.session.user_id o db) same ∙ f ∙ ap some (sym given),
              )
        ]
  ]

  role_in-resolve_session :
      (user_id organization_id token : Text) (now : ℕ) (db : Db)
      → role_in user_id organization_id (resolve_session node token now db).1
        ≡ role_in user_id organization_id db
  unfolding role_in
  role_in-resolve_session user_id organization_id token now db =
      ap (λ rows. Option.map (λ m. m.role) (find_where (is_member user_id organization_id) rows))
        (memberships-resolve_session node token now db)

  token-Identified :
      (request : Request) (token : Text) (now : ℕ) (db db' : Db) {a : RequestActor}
      → request.session_cookie ≡ some token
      → actor_of node (some token) now db ≡ (done a, db')
      → Identified request now db a
  unfolding actor_of
  token-Identified request token now db db' {a} cookie h =
      let resolved = resolve_session node token now db in
      let (context, found, session, mfa, organization, role) =
        admit-done resolved.0 resolved.1 db' {a = a} (ground arith) in
      let (row, live, same) = session_context-some node now token db {context = context} found in
      record {
        token = token;
        cookie = cookie;
        row = row;
        live = live;
        same_session = ap (λ s. s.id) (session ∙ same);
        same_user = ap (λ s. s.user_id) (session ∙ same);
        mfa = sym (ap (λ s. s.mfa_satisfied) same) ∙ mfa;
        organization = sym (ap (λ s. s.organization_id) same) ∙ organization;
        member =
            ap (λ s. role_in s.user_id a.organization_id db) (sym same)
            ∙ sym (role_in-resolve_session context.session.user_id a.organization_id token now db)
            ∙ role;
      }

  actor-Identified :
      (request : Request) (now : ℕ) (db db' : Db) {a : RequestActor}
      → actor node request now db ≡ (done a, db')
      → Identified request now db a
  unfolding actor
  actor-Identified request now db db' {a} h = elim (Option-cases request.session_cookie) [
    | inl e ↦ absurd (ground arith)
    | inr (token, e) ↦
        token-Identified request token now db db' {a = a} e
          (ap (λ c. actor_of node c now db) (sym e) ∙ h)
  ]

  -- The guard of a route lets a request through only with a safe method or a CSRF header that
  -- matches the cookie; with the token of a live session of a user who is not deleted, which has
  -- shown its second factor; for the organization of this session, of which the user is an
  -- accepted member; and with a role that has the permission.
  pub require-done :
      (request : Request) (permission : Permission) (now : ℕ) (db db' : Db) (a : RequestActor)
      → require node request permission now db ≡ (done a, db')
      → ((is_safe request.method ≡ true)
          ⊎ (csrf_matches node request.csrf_cookie request.csrf_header ≡ true))
        × Identified request now db a
        × (can a.role permission ≡ true)
  unfolding require verify_csrf assert_can
  require-done request permission now db db' a h = elim (Exit-cases (actor node request now db).0) [
    | inl (b, e) ↦ elim (Bool-cases (can b.role permission)) [
      | inl allowed ↦
          let csrf : (is_safe request.method ≡ true)
              ⊎ (csrf_matches node request.csrf_cookie request.csrf_header ≡ true) =
            ground arith in
          let same : a ≡ b = ground arith in
          (
            csrf,
            actor-Identified request now db (actor node request now db).1 {a = a} (ground arith),
            ap (λ x. can x.role permission) same ∙ allowed,
          )
      | inr forbidden ↦ absurd (ground arith)
    ]
    | inr (t, e) ↦ absurd (ground arith)
  ]

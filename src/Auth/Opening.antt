-- ===== src/Auth/Opening.antt =====
-- The session that is opened: which requests its token identifies, and how far.
use mathlib.Core.Path.{subst}
use z_shield.Prelude.{
  ℕ, ◌+◌, ◌<◌, ◌≡◌, refl, sym, ap, ap₂, ◌∙◌, Bool, true, false, not, ◌&&◌, ◌||◌, none, some, List,
  [], ◌∷◌, ◌++◌, arith, is_some, Bool-cases, inl, inr, ◌⊎◌,
}
use z_shield.Text.{Text, codes, text_eq}
use z_shield.Text.Lines.{text_eq_iff}
use z_shield.Table.{find_where, exists_where}
use z_shield.Table.Rows.{find_where-append_none, find_where-none}
use z_shield.Crypto.{Node, hash_token}
use z_shield.Tenant.{Result, Failure, ok, err, is_id, with_user, settle}
use z_shield.Db.{User, Session, Db}
use z_shield.Auth.Sessions.{
  SessionRecord, SessionInput, SessionContext, session_ttl, insert_session, create_session,
  session_record, is_live, resolve_session,
}

-- a user who is not deleted
abbrev pub is_present : Text → User → Bool
is_present user_id u = text_eq u.id user_id && not (is_some u.deleted_at)

exists_where-found :
    (user_id : Text) (users : List User)
    → exists_where (is_present user_id) users ≡ true
    → (u : User) × (find_where (λ (u : User). text_eq u.id user_id) users ≡ some u)
unfolding exists_where find_where
exists_where-found user_id [] h = absurd (ground arith)
exists_where-found user_id (x ∷ users) h = elim (Bool-cases (text_eq x.id user_id)) [
  | inl e ↦ (x, rw e)
  | inr e ↦ let (u, found) = exists_where-found user_id users (ground arith) in (u, rw e found)
]

pub Result-cases :
    {A : Type 0} (r : Result A) → ((a : A) × (r ≡ ok a)) ⊎ ((e : Failure) × (r ≡ err e))
Result-cases (ok a) = inl (a, refl)
Result-cases (err e) = inr (e, refl)

module _ (node : Node) where
  -- What a `createSession` that returns has written.
  pub record Opened (token id : Text) (now : ℕ) (input : SessionInput) (s : SessionRecord)
      (db db' : Db) : Type 0 where
    pub row : Session
    pub recorded : s ≡ session_record node row
    pub hashed : row.token_hash ≡ hash_token node token
    pub of_user : row.user_id ≡ input.user_id
    pub mfa : row.mfa_satisfied ≡ input.mfa_satisfied
    pub expiry : row.expires_at ≡ now + session_ttl
    pub kept : row.revoked_at ≡ none
    pub fresh :
        exists_where
          (λ r. text_eq r.id id || text_eq r.token_hash (hash_token node token))
          db.sessions
        ≡ false
    pub sessions : db'.sessions ≡ db.sessions ++ (row ∷ [])
    pub users : db'.users ≡ db.users
    pub memberships : db'.memberships ≡ db.memberships
    pub invitations : db'.invitations ≡ db.invitations
    pub organization : (o : Text) → input.organization_id ≡ some o → row.organization_id ≡ some o

  insert_session-Opened :
      (token id : Text) (now : ℕ) (input : SessionInput) (db db' : Db) {row : Session}
      → insert_session node token id now input db ≡ (ok row, db')
      → Opened token id now input (session_record node row) db db'
  unfolding insert_session
  insert_session-Opened token id now input db db' {row} h = record {
    row = row;
    recorded = refl;
    hashed = ground arith;
    of_user = ground arith;
    mfa = ground arith;
    expiry = ground arith;
    kept = ground arith;
    fresh = ground arith;
    sessions = ground arith;
    users = ground arith;
    memberships = ground arith;
    invitations = ground arith;
    organization = λ o given. ground arith;
  }

  -- A session is opened where its token and its identifier are new.
  pub create_session-fresh :
      (token id : Text) (now : ℕ) (input : SessionInput) (db : Db)
      → is_id (codes "usr_") input.user_id ≡ true
      → exists_where
          (λ r. text_eq r.id id || text_eq r.token_hash (hash_token node token))
          db.sessions
        ≡ false
      → (s : SessionRecord) × (db' : Db) × (create_session node token id now input db
          ≡ (ok (token, s), db'))
        × Opened token id now input s db db'
  unfolding create_session insert_session with_user settle
  create_session-fresh token id now input db form fresh =
      let inserted = insert_session node token id now input db in
      elim (Result-cases inserted.0) [
        | inl (row, e) ↦ (
          session_record node row,
          inserted.1,
          ground (arith, form),
          insert_session-Opened token id now input db inserted.1 {row = row} (ground arith),
        )
        | inr (f, e) ↦ absurd (ground (arith, fresh))
      ]

  pub create_session-Opened :
      (token id : Text) (now : ℕ) (input : SessionInput) (db db' : Db) {t : Text}
      {s : SessionRecord}
      → create_session node token id now input db ≡ (ok (t, s), db')
      → (t ≡ token) × Opened token id now input s db db'
  unfolding create_session with_user settle
  create_session-Opened token id now input db db' {t} {s} h =
      elim (Result-cases (insert_session node token id now input db).0) [
        | inl (row, e) ↦
            let same : session_record node row ≡ s = ground arith in
            let run : insert_session node token id now input db ≡ (ok row, db') = ground arith in
            (
              ground arith,
              subst (λ r. Opened token id now input r db db') same
                  (insert_session-Opened token id now input db db' {row = row} run),
            )
        | inr (f, e) ↦ absurd (ground arith)
      ]

  resolve_session-found :
      (token : Text) (now : ℕ) (db : Db) (row : Session) (user : User) (s : SessionRecord)
      → find_where (is_live now (hash_token node token) db.users) db.sessions ≡ some row
      → find_where (λ (u : User). text_eq u.id row.user_id) db.users ≡ some user
      → s ≡ session_record node row
      → (context : SessionContext) × ((resolve_session node token now db).0 ≡ some context)
        × (context.session ≡ s)
  unfolding resolve_session
  resolve_session-found token now db row user s found owner same =
      let context : SessionContext = record {
        session = session_record node row;
        user = record {
          user_id = row.user_id;
          email = user.email;
          display_name = user.display_name;
          email_verified = is_some user.email_verified_at;
          mfa_enforced = user.mfa_enforced;
        };
      } in
      (context, rw (found, owner), sym same)

  -- the token of a new session is resolved to it, until it expires
  pub Opened-resolve :
      (token id : Text) (now later : ℕ) (input : SessionInput) (s : SessionRecord) (db db' : Db)
      → Opened token id now input s db db'
      → exists_where (is_present input.user_id) db.users ≡ true
      → later < now + session_ttl
      → (context : SessionContext) × ((resolve_session node token later db').0 ≡ some context)
        × (context.session ≡ s)
  unfolding find_where
  Opened-resolve token id now later input s db db' o present early =
      let hash = hash_token node token in
      let known : exists_where (is_present o.row.user_id) db'.users ≡ true =
        ap₂ (λ u rows. exists_where (is_present u) rows) o.of_user o.users ∙ present in
      let (user, owner) = exists_where-found o.row.user_id db'.users known in
      let before =
        find_where-none (is_live later hash db'.users)
          (λ r. text_eq r.id id || text_eq r.token_hash hash) db.sessions (λ r h. ground arith)
          o.fresh in
      let live : is_live later hash db'.users o.row ≡ true =
        ground (arith, known, text_eq_iff o.row.token_hash hash) in
      let found : find_where (is_live later hash db'.users) db'.sessions ≡ some o.row =
        ap (find_where (is_live later hash db'.users)) o.sessions
        ∙ find_where-append_none (is_live later hash db'.users) db.sessions (o.row ∷ []) before
        ∙ rw live in
      resolve_session-found token later db' o.row user s found owner o.recorded

-- ===== src/Auth/Entry.antt =====
-- What a login has checked, and what its token opens.
use z_shield.Prelude.{
  ℕ, ◌+◌, ◌-◌, ◌/◌, ◌<◌, ◌≡◌, ◌≢◌, refl, sym, ap, ◌∙◌, Bool, true, false, not, ◌||◌, none, some,
  List, [], ◌∷◌, arith, Option-cases, Bool-cases, inl, inr,
}
use z_shield.Text.{Text}
use z_shield.Text.Lines.{text_eq_refl}
use z_shield.Table.{exists_where, update_where}
use z_shield.Table.Rows.{exists_where-some}
use z_shield.Crypto.{Node, verify_password}
use z_shield.Tenant.{ok}
use z_shield.Db.{User, Db}
use z_shield.Auth.Sessions.{
  SessionRecord, SessionInput, SessionContext, session_ttl, create_session, resolve_session, audit,
}
use z_shield.Auth.Login.{
  LoginInput, LoginOutcome, invalid, locked, logged_in, mfa_required, login, login_user, open_login,
  has_mfa, set_user, locked_at,
}
use z_shield.Auth.Lockout.{account}
use z_shield.Auth.Opening.{is_present, Opened, create_session-Opened, Opened-resolve, Result-cases}

exists_where-update :
    {A : Type 0} (q p : A → Bool) (f : A → A) (rows : List A)
    → ((r : A) → q (f r) ≡ q r)
    → exists_where q (update_where p f rows) ≡ exists_where q rows
unfolding exists_where update_where
exists_where-update q p f [] keep = refl
exists_where-update q p f (x ∷ rows) keep =
    ground (arith, keep x, exists_where-update q p f rows keep)

module _ (node : Node) (same_email : Text → Text → Bool) where
  -- the outcome of a login that opens a session
  abbrev opens : Bool → Text → SessionRecord → LoginOutcome
  opens true t s = mfa_required t s
  opens false t s = logged_in t s

  -- whether the second factor is asked for
  abbrev pub asks_mfa : User → Db → Bool
  asks_mfa user db = has_mfa user.id db || user.mfa_enforced

  -- the session that is asked for
  abbrev input_of : Bool → LoginInput → User → SessionInput
  input_of mfa input user = record {
    user_id = user.id;
    mfa_satisfied = not mfa;
    organization_id = none;
    ip = input.ip;
    user_agent = input.user_agent;
  }

  abbrev reset_of : ℕ → User → Db → Db
  reset_of now user db =
      set_user user.id
        (λ u. record u { failed_logins = 0; locked_until = none; last_login_at = some now }) db

  -- What an `open_login` that returns has done.
  record Entered (token id : Text) (now : ℕ) (input : LoginInput) (user : User)
      (outcome : LoginOutcome) (db db' : Db) : Type 0 where
    session : SessionRecord
    answer : outcome ≡ opens (asks_mfa user db) token session
    between : Db
    opened :
        Opened node token id now
          (input_of (asks_mfa user db) input user)
          session
          (reset_of now user db)
          between
    same_sessions : db'.sessions ≡ between.sessions
    same_users : db'.users ≡ between.users

  open_login-Entered :
      (token id : Text) (now : ℕ) (input : LoginInput) (user : User) (db db' : Db)
      {outcome : LoginOutcome}
      → open_login node same_email token id now input user db ≡ (ok outcome, db')
      → Entered token id now input user outcome db db'
  unfolding open_login audit
  open_login-Entered token id now input user db db' {outcome} h =
      let created =
        create_session node token id now (input_of (asks_mfa user db) input user)
          (reset_of now user db) in
      elim (Result-cases created.0) [
        | inl ((t, s), e) ↦
            let (same, opened) =
              create_session-Opened node token id now (input_of (asks_mfa user db) input user)
                (reset_of now user db) created.1 {t = t} {s = s} (ground arith) in
            record {
              session = s;
              answer = elim (Bool-cases (asks_mfa user db)) [
                | inl m ↦ ground arith
                | inr m ↦ ground arith
              ];
              between = created.1;
              opened = opened;
              same_sessions = ground arith;
              same_users = ground arith;
            }
        | inr (f, e) ↦ absurd (ground arith)
      ]

  present-reset :
      (now : ℕ) (user : User) (email : Text) (db : Db)
      → account node same_email email db ≡ some user
      → user.deleted_at ≡ none
      → exists_where (is_present user.id) (reset_of now user db).users ≡ true
  present-reset now user email db found present =
      exists_where-update (is_present user.id) _ _ db.users (λ u. refl)
      ∙ exists_where-some (λ u. same_email u.email email) (is_present user.id) db.users {r = user}
          found (rw (text_eq_refl, present))

  Entered-resolve :
      (token id : Text) (now later : ℕ) (input : LoginInput) (user : User) (db db' : Db)
      {outcome : LoginOutcome}
      → account node same_email input.email db ≡ some user
      → user.deleted_at ≡ none
      → later < now + session_ttl
      → (e : Entered token id now input user outcome db db')
      → (context : SessionContext) × ((resolve_session node token later db').0 ≡ some context)
        × (context.session ≡ e.session)
  unfolding resolve_session
  Entered-resolve token id now later input user db db' found present early e =
      let (context, resolved, same) =
        Opened-resolve node token id now later (input_of (asks_mfa user db) input user) e.session
          (reset_of now user db) e.between e.opened
          (present-reset now user input.email db found present) early in
      (context, rw (e.same_users, e.same_sessions) resolved, same)

  not_opened : (mfa : Bool) (t : Text) (s : SessionRecord) → invalid ≢ opens mfa t s
  not_opened true t s h = cc
  not_opened false t s h = cc

  not_locked : (mfa : Bool) (t : Text) (s : SessionRecord) (n : ℕ) → locked n ≢ opens mfa t s
  not_locked true t s n h = cc
  not_locked false t s n h = cc

  account_state :
      (token id : Text) (now : ℕ) (input : LoginInput) (user : User) (db db' : Db) (t : Text)
      (s : SessionRecord) (mfa : Bool)
      → login_user node same_email token id now input user db ≡ (ok (opens mfa t s), db')
      → (user.deleted_at ≡ none)
        × (locked_at now user ≡ none)
        × (verify_password node input.password user.password_hash ≡ true)
        × Entered token id now input user (opens mfa t s) db db'
  unfolding login_user
  account_state token id now input user db db' t s mfa h = elim (Option-cases user.deleted_at) [
    | inl present ↦ elim (Option-cases (locked_at now user)) [
      | inl free ↦ elim (Bool-cases (verify_password node input.password user.password_hash)) [
        | inl right ↦
            let run : open_login node same_email token id now input user db
                ≡ (ok (opens mfa t s), db') =
              ground (arith, present, free, right, h) in
            (
              present,
              free,
              right,
              open_login-Entered token id now input user db db' {outcome = opens mfa t s} run,
            )
        | inr wrong ↦ absurd (not_opened mfa t s (ground arith))
      ]
      | inr (until, held) ↦ absurd (not_locked mfa t s ((until - now + 999) / 1000) (ground arith))
    ]
    | inr (at, deleted) ↦ absurd (not_opened mfa t s (ground arith))
  ]

  -- what a login that opens a session has found
  login-Entered :
      (token id : Text) (now : ℕ) (input : LoginInput) (db db' : Db) (t : Text) (s : SessionRecord)
      (mfa : Bool)
      → login node same_email token id now input db ≡ (ok (opens mfa t s), db')
      → (user : User) × (account node same_email input.email db ≡ some user)
        × (user.deleted_at ≡ none)
        × (locked_at now user ≡ none)
        × (verify_password node input.password user.password_hash ≡ true)
        × Entered token id now input user (opens mfa t s) db db'
  unfolding login
  login-Entered token id now input db db' t s mfa h =
      elim (Option-cases (account node same_email input.email db)) [
        | inl e ↦ absurd (not_opened mfa t s (ground arith))
        | inr (user, e) ↦
            let run : login_user node same_email token id now input user db
                ≡ (ok (opens mfa t s), db') =
              ground arith in
            let (present, free, right, entered) =
              account_state token id now input user db db' t s mfa run in
            (user, e, present, free, right, entered)
      ]

  asked_nothing :
      (user : User) (db : Db) (t : Text) (s : SessionRecord) (token : Text) (s' : SessionRecord)
      → logged_in t s ≡ opens (asks_mfa user db) token s'
      → (asks_mfa user db ≡ false) × (token ≡ t) × (s' ≡ s)
  asked_nothing user db t s token s' h = elim (Bool-cases (asks_mfa user db)) [
    | inl m ↦ absurd (ground arith)
    | inr m ↦ (m, ground arith, ground arith)
  ]

  asked_mfa :
      (user : User) (db : Db) (t : Text) (s : SessionRecord) (token : Text) (s' : SessionRecord)
      → mfa_required t s ≡ opens (asks_mfa user db) token s'
      → (asks_mfa user db ≡ true) × (token ≡ t) × (s' ≡ s)
  asked_mfa user db t s token s' h = elim (Bool-cases (asks_mfa user db)) [
    | inl m ↦ (m, ground arith, ground arith)
    | inr m ↦ absurd (ground arith)
  ]

  -- a login that asks for the second factor opens a session that has not shown it
  pub login-pending :
      (token id : Text) (now later : ℕ) (input : LoginInput) (db db' : Db) (t : Text)
      (s : SessionRecord)
      → login node same_email token id now input db ≡ (ok (mfa_required t s), db')
      → later < now + session_ttl
      → (context : SessionContext) × ((resolve_session node t later db').0 ≡ some context)
        × (context.session.mfa_satisfied ≡ false)
  login-pending token id now later input db db' t s h early =
      let (user, found, present, free, right, entered) =
        login-Entered token id now input db db' t s true h in
      let (context, resolved, same) =
        Entered-resolve token id now later input user db db' {outcome = mfa_required t s} found
          present early entered in
      let asked = asked_mfa user db t s token entered.session entered.answer in
      (
        context,
        ap (λ k. (resolve_session node k later db').0) (sym asked.1) ∙ resolved,
        ap (λ r. r.mfa_satisfied) (same ∙ entered.opened.recorded)
            ∙ entered.opened.mfa
            ∙ ap not asked.0,
      )

  -- A login without a second factor is answered with a session only for an account that is not
  -- deleted, whose password is the one that was given, and that asks for no second factor. The
  -- token of the session is resolved to it, as one with nothing left to show, until it expires.
  pub login-logged_in :
      (token id : Text) (now later : ℕ) (input : LoginInput) (db db' : Db) (t : Text)
      (s : SessionRecord)
      → login node same_email token id now input db ≡ (ok (logged_in t s), db')
      → later < now + session_ttl
      → (user : User) × (account node same_email input.email db ≡ some user)
        × (user.deleted_at ≡ none)
        × (verify_password node input.password user.password_hash ≡ true)
        × (asks_mfa user db ≡ false)
        × (s.user_id ≡ user.id)
        × (s.mfa_satisfied ≡ true)
        × (context : SessionContext) × ((resolve_session node t later db').0 ≡ some context)
        × (context.session ≡ s)
  login-logged_in token id now later input db db' t s h early =
      let (user, found, present, free, right, entered) =
        login-Entered token id now input db db' t s false h in
      let (context, resolved, same) =
        Entered-resolve token id now later input user db db' {outcome = logged_in t s} found present
          early entered in
      let asked = asked_nothing user db t s token entered.session entered.answer in
      let own = entered.opened.recorded in
      (
        user,
        found,
        present,
        right,
        asked.0,
        ap (λ r. r.user_id) (sym asked.2 ∙ own) ∙ entered.opened.of_user,
        ap (λ r. r.mfa_satisfied) (sym asked.2 ∙ own) ∙ entered.opened.mfa ∙ ap not asked.0,
        context,
        ap (λ k. (resolve_session node k later db').0) (sym asked.1) ∙ resolved,
        same ∙ asked.2,
      )

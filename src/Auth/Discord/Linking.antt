-- ===== src/Auth/Discord/Linking.antt =====
-- Which account a login with Discord enters.
use z_shield.Prelude.{
  ℕ, ◌≡◌, refl, sym, ap, ◌∙◌, inl, inr, Bool, true, false, not, Option, none, some, [], ◌∷◌, arith,
  Bool-cases, Option-cases,
}
use z_shield.Text.{Text, codes}
use z_shield.Table.{find_where}
use z_shield.Crypto.{Node, hash_password}
use z_shield.Tenant.{ok}
use z_shield.Db.{User, Db}
use z_shield.Auth.Sessions.{SessionRecord, SessionInput, create_session}
use z_shield.Auth.Opening.{create_session-Opened, Result-cases}
use z_shield.Auth.Accounts.{is_registered}
use z_shield.Auth.Discord.{
  DiscordInput, Drawn, entered, given, asks, finalize, linked_user, enter_linked, link,
  register_discord, provisioned, verified_account, login_with_discord, identity_of, insert_identity,
}

module _ (node : Node) (same_email : Text → Text → Bool) (fold : Text → Text) (drawn : Drawn)
    (input : DiscordInput) (now : ℕ) where
  -- The session of a user, with nothing left to show.
  abbrev IsSession : Text → SessionRecord → Type 0
  IsSession user_id s = (s.user_id ≡ user_id) × (s.mfa_satisfied ≡ true)

  -- Why a user may be entered: the account of the Discord identity, the account of its verified
  -- e-mail address, or a new account for an e-mail address that no account has.
  pub data Reason (s : SessionRecord) (db : Db) : Type 0 where
    by_identity :
        (user : User)
        → linked_user node same_email fold drawn input now db ≡ some user
        → user.deleted_at ≡ none
        → asks node same_email fold drawn input now user db ≡ false
        → s.user_id ≡ user.id
        → Reason s db
    by_verified_email :
        (user : User) (email : Text)
        → input.email ≡ some email
        → input.email_verified ≡ true
        → find_where (λ (u : User). same_email u.email email) db.users ≡ some user
        → user.deleted_at ≡ none
        → asks node same_email fold drawn input now user db ≡ false
        → s.user_id ≡ user.id
        → Reason s db
    by_new_account :
        (email : Text)
        → input.email ≡ some email
        → is_registered node same_email fold email db ≡ false
        → s.user_id ≡ drawn.ids.user_id
        → Reason s db

  finalize-entered :
      (user_id action t : Text) (mfa : Bool) (s : SessionRecord) (db db' : Db)
      → finalize node same_email fold drawn input now user_id mfa action db
        ≡ (ok (entered t s), db')
      → (mfa ≡ false) × IsSession user_id s
  unfolding finalize
  finalize-entered user_id action t mfa s db db' h =
      let request : SessionInput = record {
        user_id = user_id;
        mfa_satisfied = not mfa;
        organization_id = none;
        ip = input.ip;
        user_agent = input.user_agent;
      } in
      let run = create_session node drawn.token drawn.session_id now request db in
      elim (Result-cases run.0) [
        | inr (x, e) ↦ absurd (ground arith)
        | inl ((token, session), e) ↦ elim (Bool-cases mfa) [
          | inl m ↦ absurd (ground arith)
          | inr m ↦
              let same : session ≡ s = ground arith in
              let (token_same, o) =
                create_session-Opened node drawn.token drawn.session_id now request db run.1
                  {t = token} {s = session} (ground arith) in
              (
                m,
                (
                  ap (λ r. r.user_id) (sym same ∙ o.recorded) ∙ o.of_user,
                  ap (λ r. r.mfa_satisfied) (sym same ∙ o.recorded) ∙ o.mfa ∙ ap not m,
                ),
              )
        ]
      ]

  enter_linked-entered :
      (user : User) (t : Text) (s : SessionRecord) (db db' : Db)
      → enter_linked node same_email fold drawn input now user db ≡ (ok (entered t s), db')
      → (user.deleted_at ≡ none)
        × ((asks node same_email fold drawn input now user db ≡ false) × IsSession user.id s)
  enter_linked-entered user t s db db' h = elim (Option-cases user.deleted_at) [
    | inr (at, e) ↦ absurd (ground arith)
    | inl e ↦ (
      e,
      finalize-entered user.id (codes "auth.login_discord") t
          (asks node same_email fold drawn input now user db) s db db' (ground arith),
    )
  ]

  link-entered :
      (user : User) (t : Text) (s : SessionRecord) (db db' : Db)
      → link node same_email fold drawn input now user db ≡ (ok (entered t s), db')
      → (user.deleted_at ≡ none)
        × ((asks node same_email fold drawn input now user db ≡ false) × IsSession user.id s)
  link-entered user t s db db' h = elim (Option-cases user.deleted_at) [
    | inr (at, e) ↦ absurd (ground arith)
    | inl e ↦ elim (Option-cases (insert_identity (identity_of input user.id input.email) db)) [
      | inl f ↦ absurd (ground arith)
      | inr (after, f) ↦ (
        e,
        finalize-entered user.id (codes "auth.login_discord_linked") t
            (asks node same_email fold drawn input now user db) s after db' (ground arith),
      )
    ]
  ]

  register_discord-entered :
      (email t : Text) (s : SessionRecord) (db db' : Db)
      → register_discord node same_email fold drawn input now (some email) db
        ≡ (ok (entered t s), db')
      → (is_registered node same_email fold email db ≡ false) × IsSession drawn.ids.user_id s
  register_discord-entered email t s db db' h =
      elim (Bool-cases (is_registered node same_email fold email db)) [
        | inl e ↦ absurd (ground arith)
        | inr e ↦ elim (Option-cases (hash_password node drawn.password drawn.salt)) [
          | inl f ↦ absurd (ground arith)
          | inr (hash, f) ↦
              elim (Option-cases (provisioned node same_email fold drawn input now email hash db)) [
                | inl g ↦ absurd (ground arith)
                | inr (after, g) ↦ (
                  e,
                  (finalize-entered drawn.ids.user_id (codes "auth.register_discord") t false s
                      after db' (ground arith)).1,
                )
              ]
        ]
      ]

  given-some : (o : Option Text) {email : Text} → given o ≡ some email → o ≡ some email
  given-some none h = absurd (ground arith)
  given-some (some []) h = absurd (ground arith)
  given-some (some (c ∷ s)) h = h

  verified_account-some :
      (o : Option Text) (user : User) (db : Db)
      → verified_account node same_email fold drawn input now o db ≡ some user
      → (email : Text) × (o ≡ some email)
        × (input.email_verified ≡ true)
        × (find_where (λ (u : User). same_email u.email email) db.users ≡ some user)
  verified_account-some none user db h = absurd (ground arith)
  verified_account-some (some email) user db h = elim (Bool-cases input.email_verified) [
    | inl e ↦ (email, refl, e, ground arith)
    | inr e ↦ absurd (ground arith)
  ]

  -- A login with Discord opens a session with nothing left to show only for one of these: the
  -- account that its Discord identity is linked to, or the account of its e-mail address if Discord
  -- has verified the address, neither deleted nor asking for a second factor, or a new account, for
  -- an address that no account has. An address that Discord has not verified enters no account.
  pub login_with_discord-Reason :
      (t : Text) (s : SessionRecord) (db db' : Db)
      → login_with_discord node same_email fold drawn input now db ≡ (ok (entered t s), db')
      → Reason s db × (s.mfa_satisfied ≡ true)
  unfolding login_with_discord
  login_with_discord-Reason t s db db' h =
      elim (Option-cases (linked_user node same_email fold drawn input now db)) [
        | inr (user, e) ↦
            let (present, (asks_none, (own, mfa))) =
              enter_linked-entered user t s db db' (ground arith) in
            (by_identity user e present asks_none own, mfa)
        | inl e ↦
            let email = given input.email in
            elim (Option-cases (verified_account node same_email fold drawn input now email db)) [
              | inr (user, f) ↦
                  let (address, same, verified, found) = verified_account-some email user db f in
                  let (present, (asks_none, (own, mfa))) =
                    link-entered user t s db db' (ground arith) in
                  (
                    by_verified_email user address (given-some input.email same) verified found
                        present asks_none own,
                    mfa,
                  )
              | inl f ↦ elim (Option-cases email) [
                | inl g ↦ absurd (ground arith)
                | inr (address, g) ↦
                    let (fresh, (own, mfa)) =
                      register_discord-entered address t s db db' (ground arith) in
                    (by_new_account address (given-some input.email g) fresh own, mfa)
              ]
            ]
      ]

-- ===== src/Auth/Discord.antt =====
-- `loginWithDiscord` of auth/sessions.ts.
pub mod Linking
use mathlib.Core.Option
use z_shield.Prelude.{
  ℕ, Bool, true, false, not, ◌&&◌, ◌||◌, Option, none, some, List, [], ◌∷◌, ◌++◌, if◌then◌else◌,
  is_some,
}
use z_shield.Text.{Text, codes, text_eq, take}
use z_shield.Table.{update_where, find_where, exists_where, insert_unique}
use z_shield.Crypto.{Bytes, Node, hash_password}
use z_shield.Tenant.{Result, ok, err, violation, unavailable}
use z_shield.Db.{User, DiscordIdentity, Db}
use z_shield.Auth.Sessions.{SessionRecord, create_session, audit}
use z_shield.Auth.Login.{has_mfa, set_user}
use z_shield.Auth.Accounts.{FreshIds, committed, insert_account, unique_slug, is_registered}

pub data DiscordRefusal : Type 0 where
  no_email email_taken already_linked account_disabled : DiscordRefusal

pub data DiscordLoginOutcome : Type 0 where
  entered mfa_pending : Text → SessionRecord → DiscordLoginOutcome
  error : DiscordRefusal → DiscordLoginOutcome

pub record DiscordInput : Type 0 where
  pub discord_user_id : Text
  pub email : Option Text
  pub email_verified : Bool
  pub username : Option Text
  pub avatar_url : Option Text
  pub display_name : Text
  pub ip : Option Text
  pub user_agent : Option Text

-- What is drawn for one login: the token and identifier of the session, those of an account, the
-- salt and the password that nobody knows, and the stamp of the time.
pub record Drawn : Type 0 where
  pub token : Text
  pub session_id : Text
  pub ids : FreshIds
  pub salt : Bytes
  pub password : Text
  pub stamp : Text

-- `input.email` as a condition: there, and not empty
abbrev pub given : Option Text → Option Text
given none = none
given (some []) = none
given (some (c ∷ s)) = some (c ∷ s)

abbrev pub identity_of : DiscordInput → Text → Option Text → DiscordIdentity
identity_of input user_id email = record {
  discord_user_id = input.discord_user_id;
  user_id = user_id;
  username = input.username;
  email = email;
  avatar_url = input.avatar_url;
  last_login_at = none;
}

-- the primary key and UNIQUE (user_id)
abbrev pub insert_identity : DiscordIdentity → Db → Option Db
insert_identity row db =
    Option.map (λ rows. record db { discord_identities = rows })
      (insert_unique
        (λ d. text_eq d.discord_user_id row.discord_user_id || text_eq d.user_id row.user_id) row
        db.discord_identities)

module _ (node : Node) (same_email : Text → Text → Bool) (fold : Text → Text) (drawn : Drawn)
    (input : DiscordInput) (now : ℕ) where
  abbrev outcome : Bool → Text × SessionRecord → DiscordLoginOutcome
  outcome true (token, session) = mfa_pending token session
  outcome false (token, session) = entered token session

  -- the writes of `finalize` after the session
  abbrev noted : Text → Text → Db → Db
  noted user_id action db =
      let db1 : Db = record db {
        discord_identities =
            update_where (λ d. text_eq d.discord_user_id input.discord_user_id)
              (λ d. record d {
                last_login_at = some now;
                username = input.username;
                avatar_url = input.avatar_url;
              })
              db.discord_identities;
      } in
      audit none (some user_id) action none input.ip
        (set_user user_id (λ u. record u { last_login_at = some now }) db1)

  abbrev finalized :
      Text → Bool → Text → Result (Text × SessionRecord) × Db → Result DiscordLoginOutcome × Db
  finalized user_id mfa action (ok created, db) = (
    ok (outcome mfa created),
    noted user_id (if mfa then action ++ codes "_mfa_pending" else action) db,
  )
  finalized user_id mfa action (err e, db) = (err e, db)

  -- `finalize`
  unfoldable pub finalize : Text → Bool → Text → Db → Result DiscordLoginOutcome × Db
  finalize user_id mfa action db = finalized user_id mfa action (
      create_session node drawn.token drawn.session_id now
        (record {
          user_id = user_id;
          mfa_satisfied = not mfa;
          organization_id = none;
          ip = input.ip;
          user_agent = input.user_agent;
        })
        db)

  abbrev pub asks : User → Db → Bool
  asks user db = has_mfa user.id db || user.mfa_enforced

  -- the first case, on the user of the identity
  abbrev pub enter_linked : User → Db → Result DiscordLoginOutcome × Db
  enter_linked user db =
      if is_some user.deleted_at
      then (ok (error account_disabled), db)
      else finalize user.id (asks user db) (codes "auth.login_discord") db

  -- the second case: an account with the verified e-mail address
  abbrev pub linked_now : User → Option Db → Db → Result DiscordLoginOutcome × Db
  linked_now user none db = (ok (error already_linked), db)
  linked_now user (some after) db =
      finalize user.id (asks user db) (codes "auth.login_discord_linked") after

  abbrev pub link : User → Db → Result DiscordLoginOutcome × Db
  link user db =
      if is_some user.deleted_at
      then (ok (error account_disabled), db)
      else linked_now user (insert_identity (identity_of input user.id input.email) db) db

  abbrev pub opened : Result (Unit {0}) × Db → Result DiscordLoginOutcome × Db
  opened (ok _, db) = finalize drawn.ids.user_id false (codes "auth.register_discord") db
  opened (err e, db) = (err e, db)

  -- the transaction of the third case
  abbrev pub provisioned : Text → Text → Db → Option Db
  provisioned email hash db =
      let name = take 120 (codes "Organisation de " ++ input.display_name) in
      elim (insert_account same_email drawn.ids
        (record {
          email = email;
          password_hash = hash;
          display_name = take 80 input.display_name;
          email_verified_at = if input.email_verified then some now else none;
          organization_name = name;
          slug = unique_slug fold drawn.stamp name db.organizations;
        })
        now db) [
          | none ↦ none
          | some db1 ↦
              Option.map
                (audit (some drawn.ids.organization_id) (some drawn.ids.user_id)
                  (codes "organization.created_discord") (some drawn.ids.organization_id) none)
                (insert_identity (identity_of input drawn.ids.user_id input.email) db1)
        ]

  abbrev pub provision : Text → Db → Result DiscordLoginOutcome × Db
  provision email db = elim (hash_password node drawn.password drawn.salt) [
    | none ↦ (err unavailable, db)
    | some hash ↦ opened (committed tt (provisioned email hash db) db)
  ]

  -- the third case
  abbrev pub register_discord : Option Text → Db → Result DiscordLoginOutcome × Db
  register_discord none db = (ok (error no_email), db)
  register_discord (some email) db =
      if is_registered node same_email fold email db
      then (ok (error email_taken), db)
      else provision email db

  abbrev pub by_email : Option Text → Option User → Db → Result DiscordLoginOutcome × Db
  by_email email none db = register_discord email db
  by_email email (some user) db = link user db

  abbrev pub verified_account : Option Text → Db → Option User
  verified_account none db = none
  verified_account (some email) db =
      if input.email_verified then find_where (λ u. same_email u.email email) db.users else none

  abbrev pub user_of : List User → Option DiscordIdentity → Option User
  user_of users none = none
  user_of users (some d) = find_where (λ u. text_eq u.id d.user_id) users

  -- the join of the first statement
  abbrev pub linked_user : Db → Option User
  linked_user db =
      user_of db.users
        (find_where (λ d. text_eq d.discord_user_id input.discord_user_id) db.discord_identities)

  -- `loginWithDiscord`
  unfoldable pub login_with_discord : Db → Result DiscordLoginOutcome × Db
  login_with_discord db = elim (linked_user db) [
    | some user ↦ enter_linked user db
    | none ↦ by_email (given input.email) (verified_account (given input.email) db) db
  ]

-- ===== src/Tests/Revoked.antt =====
-- Sessions that are revoked, and a password reset, next to the live session of another.
use z_shield.Prelude.{◌≡◌, ◌≢◌, refl, Bool, true, Option, none, some, [], ◌∷◌}
use z_shield.Text.{codes, text_eq}
use z_shield.Table.{find_where, exists_where, update_where}
use z_shield.Crypto.{hash_token, hash_password}
use z_shield.Db.{Session, password_reset, PasswordReset, Db}
use z_shield.Auth.Sessions.{SessionContext, resolve_session, revoke_session, revoke_all_sessions}
use z_shield.Auth.Login.{complete_password_reset}
use z_shield.Auth.Revocation.{
  revoke_session-resolve, revoke_all-resolve, complete_password_reset-once,
}
use z_shield.Tests.Runtime.{toy, secret, salt}
use z_shield.Tests.Accounts.{accounts, user_a, usr_a, usr_b, session_a, token_a, actor_a}

abbrev context_a : SessionContext
context_a = record { session = actor_a.session; user = actor_a.user }

-- a second session of the first user
abbrev other_session : Session
other_session = record session_a { id = codes "ses_b"; token_hash = codes "another-token-of-a" }

abbrev reset : PasswordReset
reset = record {
  id = codes "pwr_1";
  user_id = usr_b;
  token_hash = codes "reset-token";
  purpose = password_reset;
  requested_ip = none;
  expires_at = 100;
  consumed_at = none;
}

abbrev db : Db
db = record accounts {
  users = user_a ∷ record user_a { id = usr_b; email = codes "b@x" } ∷ [];
  sessions = session_a ∷ other_session ∷ [];
  password_resets = reset ∷ [];
}

still_live :
    (resolve_session toy token_a 6 (revoke_session (codes "ses_b") 5 db)).0 ≡ some context_a
unfolding resolve_session revoke_session find_where update_where exists_where text_eq hash_token
still_live = refl

revoke_session-resolve_example : codes "ses_a" ≢ codes "ses_b"
revoke_session-resolve_example =
    revoke_session-resolve toy (codes "ses_b") token_a 5 6 db context_a still_live

gone :
    (resolve_session toy (codes "another-token-of-a") 6 (revoke_session (codes "ses_b") 5 db)).0
    ≡ none
unfolding resolve_session revoke_session find_where update_where exists_where text_eq hash_token
gone = refl

spared_is_live :
    (resolve_session toy token_a 6 (revoke_all_sessions usr_a (some (codes "ses_a")) 5 db).1).0
    ≡ some context_a
unfolding resolve_session revoke_all_sessions find_where update_where exists_where text_eq
    hash_token
spared_is_live = refl

revoke_all-resolve_example : codes "ses_a" ≡ codes "ses_a"
revoke_all-resolve_example =
    revoke_all-resolve toy usr_a (codes "ses_a") token_a 5 6 db context_a spared_is_live refl

abbrev completed : Option (Bool × Db)
completed = complete_password_reset toy text_eq (codes "reset-token") secret salt 5 db

abbrev after_reset : Db
after_reset = elim completed [ none ↦ db | some (done, d) ↦ d ]

reset_completes : completed ≡ some (true, after_reset)
unfolding complete_password_reset find_where text_eq hash_token hash_password
reset_completes = refl

complete_password_reset-once_example :
    complete_password_reset toy text_eq
      (codes "reset-token")
      (codes "another password")
      salt
      6
      after_reset
    ≢ some (true, after_reset)
complete_password_reset-once_example =
    complete_password_reset-once toy text_eq (codes "reset-token") secret (codes "another password")
      salt salt 5 6 db after_reset after_reset (tt, tt) reset_completes

-- ===== src/Auth/Resolution.antt =====
-- The session that a token is resolved to.
use z_shield.Prelude.{ℕ, ◌≡◌, some, arith, Option-cases, inl, inr}
use z_shield.Text.{Text, text_eq}
use z_shield.Table.{find_where}
use z_shield.Crypto.{Node, hash_token}
use z_shield.Db.{Session, Db, User}
use z_shield.Auth.Sessions.{is_live, resolve_session, SessionContext, session_record}

module _ (node : Node) where
  -- Which context a resolved session gives.
  pub session_context-some :
      (now : ℕ) (token : Text) (db : Db) {context : SessionContext}
      → (resolve_session node token now db).0 ≡ some context
      → (row : Session) × (find_where (is_live now (hash_token node token) db.users) db.sessions
          ≡ some row)
        × (context.session ≡ session_record node row)
  unfolding resolve_session
  session_context-some now token db {context} h =
      elim (Option-cases (find_where (is_live now (hash_token node token) db.users) db.sessions)) [
        | inl e ↦ absurd (ground arith)
        | inr (row, e) ↦
            elim (Option-cases (find_where (λ (u : User). text_eq u.id row.user_id) db.users)) [
              | inl f ↦ absurd (ground arith)
              | inr (u, f) ↦ (row, e, ground arith)
            ]
      ]

-- ===== src/Auth/Revocation.antt =====
-- A session that was revoked is not resolved again, by any of the ways to revoke it.
use z_shield.Prelude.{
  ℕ, ◌≡◌, ◌≢◌, refl, sym, ap, ◌∙◌, Bool, true, false, not, ◌&&◌, some, List, arith, is_some, All,
  inl, inr, ◌⊎◌, Option-cases,
}
use z_shield.Table.Keys.{Unique, Unique-update_where}
use z_shield.Table.Rows.{row_of-find_where, row_of-update, find_where-row_of-none}
use z_shield.Text.{Text, text_eq}
use z_shield.Text.Lines.{text_eq_iff, text_eq_refl}
use z_shield.Table.{
  update_where, find_where, find_where-holds, find_where-All, All-update_where_any,
}
use z_shield.Crypto.{Bytes, Node, hash_token, hash_password}
use z_shield.Db.{Session, PasswordReset, Db}
use z_shield.Auth.Sessions.{
  is_live, resolve_session, SessionContext, session_record, revoke_session, revoke_all_sessions,
  audit,
}
use z_shield.Auth.Login.{complete_password_reset, apply_reset, is_usable}
use z_shield.Auth.Resolution.{session_context-some}

-- Every session that the test names is revoked.
abbrev AreRevoked : (Session → Bool) → List Session → Type 0
AreRevoked q rows = All (λ s. (q s ≡ false) ⊎ (is_some s.revoked_at ≡ true)) rows

module _ (node : Node) where
  resolve-AreRevoked :
      (q : Session → Bool) (now : ℕ) (token : Text) (db : Db) {context : SessionContext}
      → AreRevoked q db.sessions
      → (resolve_session node token now db).0 ≡ some context
      → (row : Session) × (q row ≡ false) × (context.session ≡ session_record node row)
  resolve-AreRevoked q now token db {context} h e =
      let (row, live, same) = session_context-some node now token db {context = context} e in
      let holds =
        find_where-holds (is_live now (hash_token node token) db.users) db.sessions live in
      let state =
        find_where-All (λ s. (q s ≡ false) ⊎ (is_some s.revoked_at ≡ true))
          (is_live now (hash_token node token) db.users) db.sessions h live in
      (row, elim state [ inl out ↦ out | inr gone ↦ absurd (ground arith) ], same)

  -- After `revokeSession`, no token is resolved to this session, at any time.
  pub revoke_session-resolve :
      (session_id token : Text) (now later : ℕ) (db : Db) (context : SessionContext)
      → (resolve_session node token later (revoke_session session_id now db)).0 ≡ some context
      → context.session.id ≢ session_id
  unfolding revoke_session
  revoke_session-resolve session_id token now later db context e same =
      let (row, out, origin) =
        resolve-AreRevoked (λ s. text_eq s.id session_id) later token
          (revoke_session session_id now db) {context = context}
          (All-update_where_any _ _ _ db.sessions (λ s. ground arith)) e in
      let kept : row.id ≡ session_id = sym (ap (λ s. s.id) origin) ∙ same in
      ground (arith, text_eq_iff row.id session_id)

  -- After `revokeAllSessions`, a token that is resolved to a session of the user is resolved to
  -- the one that was spared.
  pub revoke_all-resolve :
      (user_id spared token : Text) (now later : ℕ) (db : Db) (context : SessionContext)
      → (resolve_session node token later (revoke_all_sessions user_id (some spared) now db).1).0
        ≡ some context
      → context.session.user_id ≡ user_id
      → context.session.id ≡ spared
  unfolding revoke_all_sessions
  revoke_all-resolve user_id spared token now later db context e same =
      let (row, out, origin) =
        resolve-AreRevoked (λ s. text_eq s.user_id user_id && not (text_eq s.id spared)) later token
          (revoke_all_sessions user_id (some spared) now db).1 {context = context}
          (All-update_where_any _ _ _ db.sessions (λ s. ground arith)) e in
      let kept : row.user_id ≡ user_id = sym (ap (λ s. s.user_id) origin) ∙ same in
      let is_spared : row.id ≡ spared =
        ground (arith, text_eq_iff row.user_id user_id, text_eq_iff row.id spared) in
      ap (λ s. s.id) origin ∙ is_spared

module _ (node : Node) (same_email : Text → Text → Bool) where
  -- What an accepted `completePasswordReset` has found, and what it writes.
  reset-applied :
      (token new_password : Text) (salt : Bytes) (now : ℕ) (db db' : Db)
      → complete_password_reset node same_email token new_password salt now db ≡ some (true, db')
      → (reset : PasswordReset) × (hash : Text) × (find_where
            (is_usable node same_email now (hash_token node token))
            db.password_resets
          ≡ some reset)
        × (db' ≡ apply_reset node same_email now hash reset db)
  unfolding complete_password_reset
  reset-applied token new_password salt now db db' h =
      elim (Option-cases (hash_password node new_password salt)) [
        | inl e ↦ absurd (ground arith)
        | inr (hash, e) ↦
            elim (Option-cases (
              find_where (is_usable node same_email now (hash_token node token))
                db.password_resets)) [
                  | inl f ↦ absurd (ground arith)
                  | inr (reset, f) ↦ (reset, hash, f, ground arith)
                ]
      ]

  -- A token of a password reset is accepted once, if the hashes of the tokens are unique.
  pub complete_password_reset-once :
      (token new_password again : Text) (salt salt' : Bytes) (now later : ℕ) (db db' db'' : Db)
      → Unique (λ r. r.token_hash) db.password_resets
      → complete_password_reset node same_email token new_password salt now db ≡ some (true, db')
      → complete_password_reset node same_email token again salt' later db' ≢ some (true, db'')
  unfolding apply_reset audit
  complete_password_reset-once token new_password again salt salt' now later db db' db'' unique h
        h' =
      let (reset, hash, f, after) = reset-applied token new_password salt now db db' h in
      let (reset', hash', f', after') = reset-applied token again salt' later db' db'' h' in
      let spend : PasswordReset → PasswordReset = λ r. record r { consumed_at = some now } in
      let key = hash_token node token in
      let holds = find_where-holds (is_usable node same_email now key) db.password_resets f in
      let named : reset.token_hash ≡ key = ground (arith, text_eq_iff reset.token_hash key) in
      let row =
        row_of-find_where (λ r. r.token_hash) (is_usable node same_email now key) db.password_resets
          unique f in
      let spent : find_where (λ (r : PasswordReset). text_eq r.token_hash reset.token_hash)
            (update_where (λ (r : PasswordReset). text_eq r.id reset.id) spend db.password_resets)
          ≡ some (spend reset) =
        row_of-update (λ r. r.token_hash) reset.token_hash (λ r. text_eq r.id reset.id) spend
          db.password_resets {r = reset} (λ r. refl) row
        ∙ rw (text_eq_refl) in
      let gone =
        find_where-row_of-none (λ r. r.token_hash) reset.token_hash
          (is_usable node same_email later key)
          (update_where (λ r. text_eq r.id reset.id) spend db.password_resets)
          (Unique-update_where (λ r. r.token_hash) _ spend db.password_resets (λ r. refl) unique)
          spent (λ r t. ground (arith, named, text_eq_iff r.token_hash key)) (ground arith) in
      let rows' : db'.password_resets
          ≡ update_where (λ r. text_eq r.id reset.id) spend db.password_resets =
        ap (λ (d : Db). d.password_resets) after in
      let none' = ap (find_where (is_usable node same_email later key)) rows' ∙ gone in ground arith

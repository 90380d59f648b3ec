-- ===== src/Invitations/Entering.antt =====
-- A code of an open invitation for the e-mail address of an account is accepted.
use z_shield.Prelude.{
  ℕ, ◌≤◌, ◌≡◌, refl, Bool, true, false, ◌||◌, some, List, [], ◌∷◌, length, arith, Bool-cases,
  Option-cases, inl, inr,
}
use z_shield.Text.{Text, codes, text_eq}
use z_shield.Table.{find_where, exists_where, upsert, insert_unique}
use z_shield.Crypto.{Bytes, Node, hash_token, hash_password}
use z_shield.Tenant.{ok, is_id}
use z_shield.Db.{User, Membership, Invitation, Db}
use z_shield.Auth.Sessions.{SessionRecord, audit}
use z_shield.Auth.Opening.{create_session-fresh}
use z_shield.Invitations.Joining.{
  InviteAccept, AcceptIds, joined, of_code, is_open, is_membership, put_membership, wrote, join,
  enter, accept_invitation,
}
use z_shield.Invitations.Opening.{entrance}

hash_password-long :
    (node : Node) (password : Text) (salt : Bytes)
    → 12 ≤ length password
    → (hash : Text) × (hash_password node password salt ≡ some hash)
unfolding hash_password
hash_password-long node password salt long =
    elim (Option-cases (hash_password node password salt)) [
      | inl e ↦ absurd (ground arith)
      | inr found ↦ found
    ]

module _ (node : Node) (same_email : Text → Text → Bool) (ids : AcceptIds) (input : InviteAccept)
    (now : ℕ) where
  none_spoilt : (rows : List Membership) → exists_where (λ (m : Membership). false) rows ≡ false
  unfolding exists_where
  none_spoilt [] = refl
  none_spoilt (m ∷ rows) = none_spoilt rows

  put_membership-fresh :
      (user_id : Text) (i : Invitation) (rows : List Membership)
      → exists_where (λ m. text_eq m.id ids.membership_id) rows ≡ false
      → (rows' : List Membership) × (put_membership node same_email ids input now user_id i rows
          ≡ some rows')
  unfolding put_membership upsert insert_unique
  put_membership-fresh user_id i rows fresh =
      let here = is_membership node same_email ids input now i.organization_id user_id in
      elim (Option-cases (put_membership node same_email ids input now user_id i rows)) [
        | inl e ↦ absurd (ground (arith, none_spoilt rows, Bool-cases (exists_where here rows)))
        | inr found ↦ found
      ]

  enter-session :
      (i : Invitation) (user_id : Text) (after : Db)
      → is_id (codes "usr_") user_id ≡ true
      → exists_where
          (λ r. text_eq r.id ids.session_id || text_eq r.token_hash (hash_token node ids.token))
          after.sessions
        ≡ false
      → (db : Db)
      → (s : SessionRecord) × (db' : Db) × (enter node same_email ids input now i
            (some (user_id, after))
            db
          ≡ (ok (joined ids.token s i.organization_id), db'))
  enter-session i user_id after form fresh db =
      let (s, db', run, opened) =
        create_session-fresh node ids.token ids.session_id now
          (entrance node same_email ids input now user_id i) after form fresh in
      (s, db', rw run refl)

  -- An account is joined with the code of an open invitation for its e-mail address, and gets a
  -- session, where what is drawn is new and the password that is sent is long enough.
  pub accept_invitation-account :
      (salt : Bytes) (user : User) (i : Invitation) (db : Db)
      → find_where (of_code (hash_token node input.code)) db.invitations ≡ some i
      → is_open node same_email ids input now i ≡ true
      → find_where (λ u. same_email u.email i.email) db.users ≡ some user
      → is_id (codes "usr_") user.id ≡ true
      → 12 ≤ length input.password
      → exists_where (λ m. text_eq m.id ids.membership_id) db.memberships ≡ false
      → exists_where
          (λ r. text_eq r.id ids.session_id || text_eq r.token_hash (hash_token node ids.token))
          db.sessions
        ≡ false
      → (s : SessionRecord) × (db' : Db) × (accept_invitation node same_email ids input now salt db
          ≡ (ok (joined ids.token s i.organization_id), db'))
  unfolding accept_invitation join audit
  accept_invitation-account salt user i db found waiting owner form long fresh new =
      let (hash, hashed) = hash_password-long node input.password salt long in
      let (memberships, put) = put_membership-fresh user.id i db.memberships fresh in
      let after = wrote node same_email ids input now user.id db.users memberships i db in
      let (s, db', run) = enter-session i user.id after form new db in
      (s, db', ground (arith, hashed, found, waiting, owner, put, run))

-- ===== src/Invitations/Takeover.antt =====
-- The code of an invitation in the hands of the one who invited.
use z_shield.Prelude.{ℕ, ◌+◌, ◌<◌, ◌≡◌, refl, ap, ap₂, ◌∙◌, Bool, true, none, some, List, arith}
use z_shield.Text.{Text}
use z_shield.Text.Lines.{text_eq_refl}
use z_shield.Table.{find_where, exists_where}
use z_shield.Table.Rows.{exists_where-some}
use z_shield.Crypto.{Bytes, Node, hash_token}
use z_shield.Tenant.{ok}
use z_shield.Db.{User, Invitation, Db}
use z_shield.Auth.Sessions.{SessionRecord, SessionContext, session_ttl, resolve_session, audit}
use z_shield.Auth.Opening.{Opened-resolve, is_present}
use z_shield.Invitations.Joining.{
  InviteAccept, AcceptIds, joined, of_code, account_for, accept_invitation,
}
use z_shield.Invitations.Opening.{accept-Joined, entrance}

module _ (node : Node) (same_email : Text → Text → Bool) where
  account_for-found :
      (ids : AcceptIds) (input : InviteAccept) (now : ℕ) (hash : Text) (i : Invitation) (db : Db)
      {user : User} {account : Text × List User}
      → find_where (λ (u : User). same_email u.email i.email) db.users ≡ some user
      → account_for node same_email ids input now hash i db ≡ some account
      → account ≡ (user.id, db.users)
  account_for-found ids input now hash i db {user} {account} found h = ground (arith, found)

  -- Who holds the code of an invitation for the e-mail address of an account, whether the owner of
  -- the account or not, opens a session of that account with it, without the password of the
  -- account and with its second factor taken as shown: until it expires the token is resolved to
  -- the account.
  pub accept_invitation-resolve :
      (ids : AcceptIds) (input : InviteAccept) (now later : ℕ) (salt : Bytes)
      (t organization_id : Text) (s : SessionRecord) (user : User) (i : Invitation) (db db' : Db)
      → find_where (of_code (hash_token node input.code)) db.invitations ≡ some i
      → find_where (λ u. same_email u.email i.email) db.users ≡ some user
      → user.deleted_at ≡ none
      → accept_invitation node same_email ids input now salt db
        ≡ (ok (joined t s organization_id), db')
      → later < now + session_ttl
      → (context : SessionContext) × ((resolve_session node t later db').0 ≡ some context)
        × (context.session.user_id ≡ user.id)
        × (context.session.mfa_satisfied ≡ true)
        × (context.session.organization_id ≡ some i.organization_id)
  unfolding audit
  accept_invitation-resolve ids input now later salt t organization_id s user i db db' code owner
        present h early =
      let j = accept-Joined node same_email ids input now salt t organization_id s db db' h in
      let same : j.invitation ≡ i = ground (arith, j.found) in
      let account =
        account_for-found ids input now j.hash j.invitation db {user = user}
          (ap (λ (x : Invitation). find_where (λ (u : User). same_email u.email x.email) db.users)
              same
            ∙ owner)
          j.account in
      let own : j.user_id ≡ user.id = ap (λ a. a.0) account in
      let users : j.users ≡ db.users = ap (λ a. a.1) account in
      let known : exists_where (is_present j.user_id) j.users ≡ true =
        ap₂ (λ u rows. exists_where (is_present u) rows) own users
        ∙ exists_where-some (λ u. same_email u.email i.email) (is_present user.id) db.users owner
            (rw (text_eq_refl, present) refl) in
      let (context, resolved, session) =
        Opened-resolve node ids.token ids.session_id now later
          (entrance node same_email ids input now j.user_id j.invitation) s _ db' j.opened known
          early in
      (
        context,
        ap (λ x. (resolve_session node x later db').0) j.same_token ∙ resolved,
        ap (λ r. r.user_id) (session ∙ j.opened.recorded) ∙ j.opened.of_user ∙ own,
        ap (λ r. r.mfa_satisfied) (session ∙ j.opened.recorded) ∙ j.opened.mfa,
        ap (λ r. r.organization_id) (session ∙ j.opened.recorded)
            ∙ j.opened.organization j.invitation.organization_id refl
            ∙ ap (λ (x : Invitation). some x.organization_id) same,
      )

-- ===== src/Invitations/Accept.antt =====
-- A code of an invitation joins once, with the role of the invitation.
use mathlib.Core.Option
use z_shield.Prelude.{ℕ, ◌≡◌, ◌≢◌, refl, sym, ap, ◌∙◌, Bool, false, some, List, arith, inl, inr}
use z_shield.Text.{Text, text_eq}
use z_shield.Text.Lines.{text_eq_refl}
use z_shield.Table.{update_where, find_where}
use z_shield.Table.Rows.{row_of-update}
use z_shield.Table.Upsert.{upsert-found}
use z_shield.Crypto.{Bytes, Node, hash_token}
use z_shield.Tenant.{ok}
use z_shield.Db.{Membership, Invitation, Db}
use z_shield.Auth.Sessions.{SessionRecord, is_member, role_in, audit}
use z_shield.Invitations.Joining.{
  InviteAccept, AcceptIds, joined, of_code, is_membership, put_membership, accept_invitation,
}
use z_shield.Invitations.Opening.{accept-Joined}

module _ (node : Node) (same_email : Text → Text → Bool) (ids : AcceptIds) (input : InviteAccept)
    (now : ℕ) where
  put_membership-found :
      (user_id : Text) (i : Invitation) (rows rows' : List Membership)
      → put_membership node same_email ids input now user_id i rows ≡ some rows'
      → Option.map (λ m. m.role) (find_where (is_member user_id i.organization_id) rows')
        ≡ some i.role
  unfolding put_membership
  put_membership-found user_id i rows rows' h =
      elim (upsert-found (is_membership node same_email ids input now i.organization_id user_id)
        (is_member user_id i.organization_id)
        (λ m. record m { role = i.role; accepted_at = some now }) (λ m. false)
        (λ m. text_eq m.id ids.membership_id)
        (record {
          id = ids.membership_id;
          organization_id = i.organization_id;
          user_id = user_id;
          role = i.role;
          accepted_at = some now;
          created_at = now;
          updated_at = now;
        })
        rows rows' (λ r e. ground arith) (λ r e f. ground arith) (λ r e. inl (ground arith))
        (rw (text_eq_refl, text_eq_refl) refl) h) [
          | inl (r, e, found) ↦ rw found refl
          | inr found ↦ rw found refl
        ]

  -- Who joins with a code has then the role of the invitation in its organization, whatever the
  -- role before.
  pub accept_invitation-role_in :
      (salt : Bytes) (t organization_id : Text) (s : SessionRecord) (db db' : Db)
      → accept_invitation node same_email ids input now salt db
        ≡ (ok (joined t s organization_id), db')
      → Option.map (λ i. i.role) (find_where (of_code (hash_token node input.code)) db.invitations)
        ≡ role_in s.user_id organization_id db'
  unfolding role_in audit
  accept_invitation-role_in salt t organization_id s db db' h =
      let j = accept-Joined node same_email ids input now salt t organization_id s db db' h in
      let owner : s.user_id ≡ j.user_id =
        ap (λ r. r.user_id) j.opened.recorded ∙ j.opened.of_user in
      rw (j.found, owner, j.same_organization, j.opened.memberships)
        (sym (put_membership-found j.user_id j.invitation db.memberships j.memberships j.put))

  -- A code joins once: when it has joined somebody, nobody is joined by it again, at any time.
  pub accept_invitation-once :
      (again : InviteAccept) (fresh : AcceptIds) (later : ℕ) (salt salt' : Bytes)
      (t t' organization_id organization_id' : Text) (s s' : SessionRecord) (db db' db'' : Db)
      → again.code ≡ input.code
      → accept_invitation node same_email ids input now salt db
        ≡ (ok (joined t s organization_id), db')
      → accept_invitation node same_email fresh again later salt' db'
        ≢ (ok (joined t' s' organization_id'), db'')
  unfolding audit
  accept_invitation-once again fresh later salt salt' t t' organization_id organization_id' s s' db
        db' db'' code h h' =
      let j = accept-Joined node same_email ids input now salt t organization_id s db db' h in
      let j' =
        accept-Joined node same_email fresh again later salt' t' organization_id' s' db' db'' h' in
      let accept : Invitation → Invitation = λ r. record r { accepted_at = some now } in
      let key = hash_token node input.code in
      let i = j.invitation in
      let q : Invitation → Bool = of_code key in
      let spent : find_where q (update_where (λ r. text_eq r.id i.id) accept db.invitations)
          ≡ some (accept i) =
        row_of-update (λ r. r.token_hash) key (λ r. text_eq r.id i.id) accept db.invitations {r = i}
          (λ r. refl) j.found
        ∙ rw text_eq_refl refl in
      let second : find_where q db'.invitations ≡ some j'.invitation =
        ap (λ c. find_where (of_code (hash_token node c)) db'.invitations) (sym code) ∙ j'.found in
      let same : some (accept i) ≡ some j'.invitation =
        sym spent ∙ ap (find_where q) (sym j.opened.invitations) ∙ second in
      ground (arith, j'.still_open)

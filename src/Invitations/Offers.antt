-- ===== src/Invitations/Offers.antt =====
-- The code that POST /api/invitations returns, and the invitation that is kept under it.
use mathlib.Core.Path.{subst}
use z_shield.Prelude.{
  ℕ, ◌+◌, ◌≡◌, refl, sym, ap, ◌∙◌, ◌⊎◌, inl, inr, Bool, true, not, ◌&&◌, ◌||◌, Option, none, some,
  List, arith, Bool-cases,
}
use z_shield.Text.{Text, codes, text_eq}
use z_shield.Text.Lines.{text_eq_refl}
use z_shield.Table.{find_where}
use z_shield.Table.Upsert.{upsert-found}
use z_shield.Crypto.{Node, hash_token}
use z_shield.Tenant.{ok, is_id, settle, with_tenant}
use z_shield.Tenant.Atomic.{with_tenant-ok}
use z_shield.Rbac.{member_manage}
use z_shield.Db.{Invitation, Db}
use z_shield.Auth.Sessions.{audit}
use z_shield.Auth.Opening.{Result-cases}
use z_shield.Middleware.{Request, RequestActor, done, require}
use z_shield.Middleware.Access.{Exit-cases}
use z_shield.Members.{audited}
use z_shield.Invitations.{
  InviteCreate, InviteRole, invited, is_invitation, renew, role_of, drafted, put_invitation,
  write_invitation, stored, invite, post_invitation, invite_ttl,
}
use z_shield.Invitations.Joining.{of_code}

module _ (node : Node) (same_email : Text → Text → Bool) where
  -- The invitation that a code opens.
  pub record Offers (code email : Text) (role : InviteRole) (expires_at : ℕ)
      (rows : List Invitation) : Type 0 where
    pub invitation : Invitation
    pub found : find_where (of_code (hash_token node code)) rows ≡ some invitation
    pub addressed : (invitation.email ≡ email) ⊎ (same_email invitation.email email ≡ true)
    pub granted : invitation.role ≡ role_of role
    pub expiry : invitation.expires_at ≡ expires_at
    pub waiting : invitation.accepted_at ≡ none

  put_invitation-Offers :
      (code id : Text) (actor : RequestActor) (body : InviteCreate) (now : ℕ)
      (rows rows' : List Invitation)
      → put_invitation same_email (drafted node same_email code id actor body now) rows ≡ some rows'
      → Offers code body.email body.role (now + invite_ttl) rows'
  unfolding put_invitation
  put_invitation-Offers code id actor body now rows rows' h =
      let new = drafted node same_email code id actor body now in
      let key = hash_token node code in
      let here : Invitation → Bool = is_invitation same_email new.organization_id new.email in
      elim (upsert-found here (of_code key) (renew same_email new)
        (λ i. text_eq i.token_hash new.token_hash && not (here i))
        (λ i. text_eq i.id new.id || text_eq i.token_hash new.token_hash) new rows rows'
        (λ r e. rw text_eq_refl refl) (λ r e f. ground arith) (λ r e. ground arith)
        (rw text_eq_refl refl) h) [
          | inl (r, e, found) ↦ record {
            invitation = renew same_email new r;
            found = found;
            addressed = inr (ground arith);
            granted = refl;
            expiry = refl;
            waiting = refl;
          }
          | inr found ↦ record {
            invitation = new;
            found = found;
            addressed = inl refl;
            granted = refl;
            expiry = refl;
            waiting = refl;
          }
        ]

  audited-invitations :
      (actor : RequestActor) (action target_id : Text) (ip : Option Text) (d : Db)
      → (audited actor action target_id ip d).1.invitations ≡ d.invitations
  unfolding with_tenant settle audit
  audited-invitations actor action target_id ip d =
      elim (Bool-cases (is_id (codes "org_") actor.organization_id)) [
        | inl e ↦ rw e refl
        | inr e ↦ rw e refl
      ]

  stored-ok :
      (rows : Option (List Invitation)) (d d' : Db)
      → stored rows d ≡ (ok tt, d')
      → rows ≡ some d'.invitations
  stored-ok none d d' h = absurd (ground arith)
  stored-ok (some rows) d d' h = ground arith

  invite-Offers :
      (request : Request) (code id given email : Text) (role : InviteRole) (actor : RequestActor)
      (body : Option InviteCreate) (now expires_at : ℕ) (d db' : Db)
      → invite node same_email request code id now actor body d
        ≡ (done (invited given email role expires_at), db')
      → (given ≡ code)
        × (expires_at ≡ now + invite_ttl)
        × Offers code email role expires_at db'.invitations
  unfolding write_invitation
  invite-Offers request code id given email role actor none now expires_at d db' h =
      absurd (ground arith)
  invite-Offers request code id given email role actor (some body) now expires_at d db' h =
      let work = write_invitation node same_email code id actor body now in
      elim (Result-cases (with_tenant actor.organization_id work d).0) [
        | inr (x, e) ↦ absurd (ground arith)
        | inl (u, e) ↦
            let d1 = (with_tenant actor.organization_id work d).1 in
            let (form, wrote) = with_tenant-ok actor.organization_id work d d1 u (ground arith) in
            let kept = put_invitation-Offers code id actor body now d.invitations d1.invitations (
              stored-ok
                (put_invitation same_email (drafted node same_email code id actor body now)
                  d.invitations)
                d d1 wrote) in
            elim (Exit-cases (audited actor (codes "invitation.created") id request.ip d1).0) [
              | inr (x, f) ↦ absurd (ground arith)
              | inl (v, f) ↦
                  let last : (audited actor (codes "invitation.created") id request.ip d1).1 ≡ db' =
                    ground arith in
                  let same : d1.invitations ≡ db'.invitations =
                    sym (audited-invitations actor (codes "invitation.created") id request.ip d1)
                    ∙ ap (λ (d : Db). d.invitations) last in
                  let mail : body.email ≡ email = ground arith in
                  let granted : body.role ≡ role = ground arith in
                  let time : now + invite_ttl ≡ expires_at = ground arith in
                  (
                    ground arith,
                    sym time,
                    rw (← mail, ← granted, ← time)
                        (subst (λ rows. Offers code body.email body.role (now + invite_ttl) rows)
                          same kept),
                  )
            ]
      ]

  -- An invitation that is answered with its code is kept under the code.
  pub post_invitation-Offers :
      (request : Request) (code id given email : Text) (role : InviteRole)
      (body : Option InviteCreate) (now expires_at : ℕ) (db db' : Db)
      → post_invitation node same_email request code id body now db
        ≡ (done (invited given email role expires_at), db')
      → (given ≡ code)
        × (expires_at ≡ now + invite_ttl)
        × Offers code email role expires_at db'.invitations
  unfolding post_invitation write_invitation
  post_invitation-Offers request code id given email role body now expires_at db db' h =
      elim (Exit-cases (require node request member_manage now db).0) [
        | inr (x, e) ↦ absurd (ground arith)
        | inl (actor, e) ↦
            invite-Offers request code id given email role actor body now expires_at
              (require node request member_manage now db).1 db' (ground arith)
      ]

-- ===== src/Invitations/Opening.antt =====
-- What an accepted code of an invitation writes, and the session that it opens.
use mathlib.Core.Path.{subst}
use z_shield.Prelude.{
  ℕ, ◌≡◌, sym, Bool, true, some, List, arith, Bool-cases, Option-cases, inl, inr,
}
use z_shield.Text.{Text}
use z_shield.Table.{find_where}
use z_shield.Crypto.{Bytes, Node, hash_token, hash_password}
use z_shield.Tenant.{ok}
use z_shield.Db.{User, Membership, Invitation, Db}
use z_shield.Auth.Sessions.{SessionRecord, SessionInput, create_session}
use z_shield.Auth.Opening.{Opened, create_session-Opened, Result-cases}
use z_shield.Invitations.Joining.{
  InviteAccept, AcceptIds, joined, of_code, is_open, account_for, put_membership, wrote, join,
  enter, accept_invitation,
}

module _ (node : Node) (same_email : Text → Text → Bool) (ids : AcceptIds) (input : InviteAccept)
    (now : ℕ) where
  -- the session that a member asks for
  abbrev pub entrance : Text → Invitation → SessionInput
  entrance user_id i = record {
    user_id = user_id;
    mfa_satisfied = true;
    organization_id = some i.organization_id;
    ip = input.ip;
    user_agent = input.user_agent;
  }

  -- What a code that is accepted has found and written.
  pub record Joined (t : Text) (s : SessionRecord) (organization_id : Text) (db db' : Db)
      : Type 0 where
    pub hash : Text
    pub invitation : Invitation
    pub user_id : Text
    pub users : List User
    pub memberships : List Membership
    pub found : find_where (of_code (hash_token node input.code)) db.invitations ≡ some invitation
    pub still_open : is_open node same_email ids input now invitation ≡ true
    pub account :
        account_for node same_email ids input now hash invitation db ≡ some (user_id, users)
    pub put :
        put_membership node same_email ids input now user_id invitation db.memberships
        ≡ some memberships
    pub same_token : t ≡ ids.token
    pub same_organization : organization_id ≡ invitation.organization_id
    pub opened :
        Opened node ids.token ids.session_id now
          (entrance user_id invitation)
          s
          (wrote node same_email ids input now user_id users memberships invitation db)
          db'

  enter-joined :
      (i : Invitation) (user_id t organization_id : Text) (s : SessionRecord) (after db db' : Db)
      → enter node same_email ids input now i (some (user_id, after)) db
        ≡ (ok (joined t s organization_id), db')
      → (create_session node ids.token ids.session_id now (entrance user_id i) after
          ≡ (ok (t, s), db'))
        × (organization_id ≡ i.organization_id)
  enter-joined i user_id t organization_id s after db db' h =
      elim (Result-cases
        (create_session node ids.token ids.session_id now (entrance user_id i) after).0) [
          | inl (r, e) ↦ (ground arith, ground arith)
          | inr (x, e) ↦ absurd (ground arith)
        ]

  join-some :
      (hash : Text) (i : Invitation) (db after : Db) {user_id : Text}
      → join node same_email ids input now hash i db ≡ some (user_id, after)
      → (users : List User) × (memberships : List Membership) × (account_for node same_email ids
            input now hash i db
          ≡ some (user_id, users))
        × (put_membership node same_email ids input now user_id i db.memberships ≡ some memberships)
        × (wrote node same_email ids input now user_id users memberships i db ≡ after)
  unfolding join
  join-some hash i db after {user_id} h =
      elim (Option-cases (account_for node same_email ids input now hash i db)) [
        | inl e ↦ absurd (ground arith)
        | inr ((user, users), e) ↦
            elim (Option-cases
              (put_membership node same_email ids input now user i db.memberships)) [
                | inl f ↦ absurd (ground arith)
                | inr (memberships, f) ↦
                    let same : user ≡ user_id = ground arith in
                    (users, memberships, rw (← same) e, rw (← same) f, ground arith)
              ]
      ]

  pub accept-Joined :
      (salt : Bytes) (t organization_id : Text) (s : SessionRecord) (db db' : Db)
      → accept_invitation node same_email ids input now salt db
        ≡ (ok (joined t s organization_id), db')
      → Joined t s organization_id db db'
  unfolding accept_invitation
  accept-Joined salt t organization_id s db db' h =
      let row = find_where (of_code (hash_token node input.code)) db.invitations in
      elim (Option-cases (hash_password node input.password salt)) [
        | inl e ↦ absurd (ground arith)
        | inr (hash, e) ↦ elim (Option-cases row) [
          | inl f ↦ absurd (ground arith)
          | inr (i, f) ↦ elim (Bool-cases (is_open node same_email ids input now i)) [
            | inr o ↦ absurd (ground arith)
            | inl o ↦ elim (Option-cases (join node same_email ids input now hash i db)) [
              | inl g ↦ absurd (ground arith)
              | inr ((user_id, after), g) ↦
                  let (users, memberships, account, put, same) = join-some hash i db after g in
                  let (run, organization) =
                    enter-joined i user_id t organization_id s after db db' (ground arith) in
                  let (same_token, opened) =
                    create_session-Opened node ids.token ids.session_id now (entrance user_id i)
                      after db' run in
                  record {
                    hash = hash;
                    invitation = i;
                    user_id = user_id;
                    users = users;
                    memberships = memberships;
                    found = f;
                    still_open = o;
                    account = account;
                    put = put;
                    same_token = same_token;
                    same_organization = organization;
                    opened =
                        subst
                          (λ a.
                            Opened node ids.token ids.session_id now (entrance user_id i) s a db')
                          (sym same) opened;
                  }
            ]
          ]
        ]
      ]

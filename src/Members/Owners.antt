-- ===== src/Members/Owners.antt =====
-- The invariant of an organization: it keeps at least one OWNER.
use z_shield.Prelude.{
  ℕ, ◌+◌, ◌≤◌, ◌≡◌, refl, true, false, none, some, List, arith, ◌&&◌, inl, inr, ◌⊎◌, Option-cases,
}
use z_shield.Text.{Text, text_eq}
use z_shield.Text.Lines.{text_eq_iff}
use z_shield.Table.{delete_where, find_where, find_where-holds}
use z_shield.Table.Keys.{
  Unique, Sole, Unique-Sole, count_where-update, count_where-delete, Unique-update_where,
  Unique-delete_where, to_ℕ,
}
use z_shield.Rbac.{Role, owner, role_eq, RoleChangeContext, check_role_change, check_member_removal}
use z_shield.Db.{Membership, Db}
use z_shield.Middleware.{RequestActor}
use z_shield.Members.{
  Change, missing, denied, changed, is_changed, is_row, is_owner_of, owner_count, check_change,
  set_role, change_role, check_removal, remove_member,
}

abbrev pub UniqueIds : List Membership → Type 0
UniqueIds rows = Unique (λ m. m.id) rows

pub is_row-Sole :
    (id organization_id : Text) (rows : List Membership)
    → UniqueIds rows
    → Sole (is_row id organization_id) rows
is_row-Sole id organization_id rows u =
    Unique-Sole (λ m. m.id) id (is_row id organization_id) rows
      (λ m h. ground (arith, text_eq_iff m.id id)) u

-- The UPDATE moves the number of owners of any organization by the row that it names.
pub owner_count-set_role :
    (id organization_id other : Text) (new_role : Role) (now : ℕ) (rows : List Membership)
    {target : Membership}
    → UniqueIds rows
    → find_where (is_row id organization_id) rows ≡ some target
    → owner_count other (set_role id organization_id new_role now rows)
        + to_ℕ (is_owner_of other target)
      ≡ owner_count other rows
        + to_ℕ (text_eq target.organization_id other && role_eq new_role owner)
unfolding owner_count set_role
owner_count-set_role id organization_id other new_role now rows u h =
    count_where-update (is_row id organization_id) (is_owner_of other)
      (λ m. record m { role = new_role; updated_at = now }) rows
      (is_row-Sole id organization_id rows u) h

owner_count-delete :
    (id organization_id other : Text) (rows : List Membership) {target : Membership}
    → UniqueIds rows
    → find_where (is_row id organization_id) rows ≡ some target
    → owner_count other (delete_where (is_row id organization_id) rows)
        + to_ℕ (is_owner_of other target)
      ≡ owner_count other rows
unfolding owner_count
owner_count-delete id organization_id other rows u h =
    count_where-delete (is_row id organization_id) (is_owner_of other) rows
      (is_row-Sole id organization_id rows u) h

-- What the check of the PATCH leaves to the UPDATE: the last OWNER does not lose the role.
check_role_change-not_last :
    (ctx : RoleChangeContext)
    → check_role_change ctx ≡ none
    → role_eq ctx.target_current_role owner ≡ true
    → role_eq ctx.target_new_role owner ≡ false
    → 2 ≤ ctx.owner_count
unfolding check_role_change
check_role_change-not_last ctx h c n = ground arith

module _ (actor : RequestActor) (id other : Text) (rows : List Membership) where
  -- After an accepted change the organization has an OWNER, if it had one.
  owner_count-check_change :
      (new_role : Role) (now : ℕ) (user_id : Text) {target : Membership}
      → UniqueIds rows
      → 1 ≤ owner_count other rows
      → find_where (is_row id actor.organization_id) rows ≡ some target
      → check_change actor id new_role rows ≡ changed user_id
      → 1 ≤ owner_count other (set_role id actor.organization_id new_role now rows)
  unfolding check_change
  owner_count-check_change new_role now user_id {target} u h e c = ground (
    arith,
    owner_count-set_role id actor.organization_id other new_role now rows u e,
    check_role_change-not_last (record {
      actor_role = actor.role;
      actor_user_id = actor.user.user_id;
      target_user_id = target.user_id;
      target_current_role = target.role;
      target_new_role = new_role;
      owner_count = owner_count actor.organization_id rows;
    }),
    find_where-holds (is_row id actor.organization_id) rows e,
    text_eq_iff target.organization_id other,
    text_eq_iff target.organization_id actor.organization_id,
  )

  owner_count-check_removal :
      (user_id : Text) {target : Membership}
      → UniqueIds rows
      → 1 ≤ owner_count other rows
      → find_where (is_row id actor.organization_id) rows ≡ some target
      → check_removal actor id rows ≡ changed user_id
      → 1 ≤ owner_count other (delete_where (is_row id actor.organization_id) rows)
  unfolding check_removal check_member_removal
  owner_count-check_removal user_id {target} u h e c = ground (
    arith,
    owner_count-delete id actor.organization_id other rows u e,
    find_where-holds (is_row id actor.organization_id) rows e,
    text_eq_iff target.organization_id other,
    text_eq_iff target.organization_id actor.organization_id,
  )

-- The invariant of the table: identifiers are unique, and the organization has an OWNER.
pub record HasOwner (organization_id : Text) (rows : List Membership) : Type 0 where
  pub unique : UniqueIds rows
  pub owned : 1 ≤ owner_count organization_id rows

pub UniqueIds-set_role :
    (id organization_id : Text) (new_role : Role) (now : ℕ) (rows : List Membership)
    → UniqueIds rows
    → UniqueIds (set_role id organization_id new_role now rows)
unfolding set_role
UniqueIds-set_role id organization_id new_role now rows u =
    Unique-update_where (λ m. m.id) _ _ rows (λ m. refl) u

Change-cases : (c : Change) → (is_changed c ≡ false) ⊎ ((u : Text) × (c ≡ changed u))
Change-cases missing = inl refl
Change-cases (denied refusal) = inl refl
Change-cases (changed u) = inr (u, refl)

module _ (actor : RequestActor) (id : Text) (rows : List Membership) (u : Text) where
  found_of_change :
      (new_role : Role)
      → check_change actor id new_role rows ≡ changed u
      → (t : Membership) × (find_where (is_row id actor.organization_id) rows ≡ some t)
  unfolding check_change
  found_of_change new_role c =
      elim (Option-cases (find_where (is_row id actor.organization_id) rows)) [
        | inl e ↦ cc (rw e at c)
        | inr found ↦ found
      ]

  found_of_removal :
      check_removal actor id rows ≡ changed u
      → (t : Membership) × (find_where (is_row id actor.organization_id) rows ≡ some t)
  unfolding check_removal
  found_of_removal c = elim (Option-cases (find_where (is_row id actor.organization_id) rows)) [
    | inl e ↦ cc (rw e at c)
    | inr found ↦ found
  ]

-- The transaction of PATCH keeps the invariant of every organization.
pub change_role-HasOwner :
    (actor : RequestActor) (id other : Text) (new_role : Role) (now : ℕ) (db : Db)
    → HasOwner other db.memberships
    → HasOwner other (change_role actor id new_role now db).1.memberships
unfolding change_role
change_role-HasOwner actor id other new_role now db h =
    let rows = db.memberships in
    elim (Change-cases (check_change actor id new_role rows)) [
      | inl e ↦ rw e h
      | inr (u, c) ↦
          let (t, found) = found_of_change actor id rows u new_role c in
          rw c (record {
            unique = UniqueIds-set_role id actor.organization_id new_role now rows h.unique;
            owned =
                owner_count-check_change actor id other rows new_role now u h.unique h.owned found
                  c;
          })
    ]

pub remove_member-HasOwner :
    (actor : RequestActor) (id other : Text) (db : Db)
    → HasOwner other db.memberships
    → HasOwner other (remove_member actor id db).1.memberships
unfolding remove_member
remove_member-HasOwner actor id other db h =
    let rows = db.memberships in
    elim (Change-cases (check_removal actor id rows)) [
      | inl e ↦ rw e h
      | inr (u, c) ↦
          let (t, found) = found_of_removal actor id rows u c in
          rw c (record {
            unique = Unique-delete_where (λ m. m.id) _ rows h.unique;
            owned = owner_count-check_removal actor id other rows u h.unique h.owned found c;
          })
    ]

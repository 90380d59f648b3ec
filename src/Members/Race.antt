-- ===== src/Members/Race.antt =====
-- Two PATCH transactions at once. A transaction locks the row that it names (FOR UPDATE), counts
-- the owners and checks; later it writes and commits. PostgreSQL runs it at READ COMMITTED: it sees
-- what is committed, and waits only for a row that another transaction has locked.
use z_shield.Prelude.{
  ℕ, ◌≡◌, ◌≢◌, suc, sym, refl, ap, ◌∙◌, true, false, some, List, [], ◌∷◌, arith, All,
}
use z_shield.Text.{Text}
use z_shield.Text.Lines.{text_eq_iff}
use z_shield.Table.{find_where, find_where-holds, find_where-update}
use z_shield.Rbac.{Role, owner, member_manage, owner_manage, role_eq, rank, check_role_change}
use z_shield.Rbac.Rules.{can_owner, rank-le_owner, role_eq_iff}
use z_shield.Db.{Membership}
use z_shield.Middleware.{RequestActor}
use z_shield.Members.{changed, is_row, owner_count, check_change, set_role}
use z_shield.Members.Owners.{UniqueIds, owner_count-set_role, UniqueIds-set_role}

-- A transaction that has passed its check and holds the lock of its row.
pub record Patch : Type 0 where
  pub actor : RequestActor
  pub id : Text
  pub new_role : Role

pub record World : Type 0 where
  pub rows : List Membership
  pub held : List Patch

pub data Step : World → World → Type 0 where
  check :
      (w : World) (p : Patch) (user_id : Text)
      → All (λ q. q.id ≢ p.id) w.held
      → check_change p.actor p.id p.new_role w.rows ≡ changed user_id
      → Step w (record w { held = p ∷ w.held })
  commit :
      (rows : List Membership) (p : Patch) (held : List Patch) (now : ℕ)
      → Step
          (record { rows = rows; held = p ∷ held })
          (record { rows = set_role p.id p.actor.organization_id p.new_role now rows; held = held })

pub data Reach (w : World) : World → Type 0 where
  here : Reach w w
  next : {u v : World} → Reach w u → Step u v → Reach w v

abbrev pub quiet : List Membership → World
quiet rows = record { rows = rows; held = [] }

-- With two owners, each of them may lose the role: the check passes.
check_demotion :
    (actor : RequestActor) (new_role : Role) (rows : List Membership) (id : Text)
    {target : Membership}
    → actor.role ≡ owner
    → role_eq new_role owner ≡ false
    → owner_count actor.organization_id rows ≡ 2
    → find_where (is_row id actor.organization_id) rows ≡ some target
    → role_eq target.role owner ≡ true
    → check_change actor id new_role rows ≡ changed target.user_id
unfolding check_change check_role_change
check_demotion actor new_role rows id {target} o n count found r =
    rw (found, o, count, can_owner member_manage, can_owner owner_manage, r)
      (ground (arith, rank-le_owner new_role, ap rank ((role_eq_iff target.role owner).0 r)))

-- The row of another identifier is found again after an UPDATE.
find_where-set_role :
    (a b organization_id : Text) (new_role : Role) (now : ℕ) (rows : List Membership)
    {target : Membership}
    → a ≢ b
    → find_where (is_row b organization_id) rows ≡ some target
    → find_where (is_row b organization_id) (set_role a organization_id new_role now rows)
      ≡ some target
unfolding set_role
find_where-set_role a b organization_id new_role now rows {target} ne found =
    find_where-update (is_row b organization_id) (is_row a organization_id)
      (λ m. record m { role = new_role; updated_at = now }) rows (λ m. refl)
    ∙ rw found (
        ground (
          arith,
          find_where-holds (is_row b organization_id) rows found,
          text_eq_iff target.id b,
          text_eq_iff target.id a,
        ))

-- The transaction of an OWNER of the organization that takes the role from an OWNER.
pub record IsDemotion (organization_id : Text) (rows : List Membership) (p : Patch) : Type 0 where
  pub inside : p.actor.organization_id ≡ organization_id
  pub by_owner : p.actor.role ≡ owner
  pub to_other : role_eq p.new_role owner ≡ false
  pub target : Membership
  pub found : find_where (is_row p.id organization_id) rows ≡ some target
  pub was_owner : role_eq target.role owner ≡ true

module _ {organization_id : Text} {rows : List Membership} (p : Patch) where
  check_IsDemotion :
      (d : IsDemotion organization_id rows p)
      → owner_count organization_id rows ≡ 2
      → check_change p.actor p.id p.new_role rows ≡ changed d.target.user_id
  check_IsDemotion d count =
      check_demotion p.actor p.new_role rows p.id {target = d.target} d.by_owner d.to_other
        (rw d.inside count) (rw d.inside d.found) d.was_owner

  -- The write of a demotion takes one from the number of owners.
  owner_count-demotion :
      (now : ℕ)
      → UniqueIds rows
      → IsDemotion organization_id rows p
      → suc
          (owner_count organization_id (set_role p.id p.actor.organization_id p.new_role now rows))
        ≡ owner_count organization_id rows
  owner_count-demotion now u d = rw d.inside (
      ground (
        arith,
        owner_count-set_role p.id organization_id organization_id p.new_role now rows u d.found,
        find_where-holds (is_row p.id organization_id) rows d.found,
        d.to_other,
        d.was_owner,
      ))

IsDemotion-set_role :
    {organization_id : Text} {rows : List Membership} (p q : Patch) (now : ℕ)
    → q.id ≢ p.id
    → IsDemotion organization_id rows q
    → IsDemotion organization_id rows p
    → IsDemotion organization_id (set_role q.id q.actor.organization_id q.new_role now rows) p
IsDemotion-set_role {organization_id} {rows} p q now ne dq d = record {
  inside = d.inside;
  by_owner = d.by_owner;
  to_other = d.to_other;
  target = d.target;
  found =
      rw dq.inside (find_where-set_role q.id p.id organization_id q.new_role now rows ne d.found);
  was_owner = d.was_owner;
}

-- In an organization with two OWNERs, two transactions of OWNERs, each of which takes the role from
-- another one of the two, may both pass their check and commit: no OWNER is left. The two UPDATEs
-- name different rows, so that no lock makes one transaction wait for the other.
pub two_demotions :
    (organization_id : Text) (rows : List Membership) (first second : Patch)
    → UniqueIds rows
    → second.id ≢ first.id
    → owner_count organization_id rows ≡ 2
    → IsDemotion organization_id rows first
    → IsDemotion organization_id rows second
    → (w : World) × Reach (quiet rows) w × (owner_count organization_id w.rows ≡ 0)
two_demotions organization_id rows first second u ne count d1 d2 =
    let rows1 : List Membership =
      set_role second.id second.actor.organization_id second.new_role 0 rows in
    let rows2 : List Membership =
      set_role first.id first.actor.organization_id first.new_role 0 rows1 in
    let u1 = UniqueIds-set_role second.id second.actor.organization_id second.new_role 0 rows u in
    let d1' = IsDemotion-set_role first second 0 ne d2 d1 in
    let both_checked =
      next
        (next here
          (check (quiet rows) first d1.target.user_id tt (check_IsDemotion first d1 count)))
        (check (record { rows = rows; held = first ∷ [] }) second d2.target.user_id
          ((λ e. ne (sym e)), tt) (check_IsDemotion second d2 count)) in
    (
      record { rows = rows2; held = [] },
      next (next both_checked (commit rows second (first ∷ []) 0)) (commit rows1 first [] 0),
      omega (arith, owner_count-demotion second 0 u d2, owner_count-demotion first 0 u1 d1'),
    )

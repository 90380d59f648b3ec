-- ===== src/Gateway/Commands/Finished.antt =====
-- A command that was acknowledged, has failed or has expired stays as it is.
use z_shield.Prelude.{
  ℕ, zero, suc, ◌≡◌, refl, ◌∙◌, Bool, false, ◌&&◌, ◌||◌, Option, none, some, List, [], ◌∷◌, arith,
  map, Bool-cases, inl, inr,
}
use z_shield.Text.{Text, codes, text_eq, take}
use z_shield.Text.Lines.{text_eq_iff}
use z_shield.Table.{update_where, select_where, exists_where, find_where}
use z_shield.Table.Keys.{Unique, Unique-update_where}
use z_shield.Table.Rows.{row_of, row_of-update, find_where-row_of-none}
use z_shield.Tenant.{with_tenant, settle, is_id}
use z_shield.Gateway.Commands.{
  AgentCommand, Commands, is_open, is_overdue, is_due, is_chosen, is_reported, insert_by_age,
  by_age, oldest, deliver, expire, conclude, claim_commands, CommandResult, report_all,
  command_results,
}

module _ {A : Type 0} (p : A → Bool) where
  exists_where-map :
      {B : Type 0} (f : B → A) (xs : List B)
      → exists_where p (map f xs) ≡ exists_where (λ x. p (f x)) xs
  unfolding exists_where
  exists_where-map f [] = refl
  exists_where-map f (x ∷ xs) = ground (arith, exists_where-map f xs)

  exists_where-take :
      (n : ℕ) (xs : List A) → exists_where p xs ≡ false → exists_where p (take n xs) ≡ false
  unfolding exists_where take
  exists_where-take zero xs h = refl
  exists_where-take (suc n) [] h = refl
  exists_where-take (suc n) (x ∷ xs) h = ground (arith, exists_where-take n xs)

  exists_where-select_where :
      (q : A → Bool) (xs : List A)
      → exists_where p (select_where q xs) ≡ exists_where (λ x. q x && p x) xs
  unfolding exists_where select_where
  exists_where-select_where q [] = refl
  exists_where-select_where q (x ∷ xs) = ground (arith, exists_where-select_where q xs)

  exists_where-none : (xs : List A) → find_where p xs ≡ none → exists_where p xs ≡ false
  unfolding exists_where find_where
  exists_where-none [] h = refl
  exists_where-none (x ∷ xs) h = ground (arith, exists_where-none xs)

exists_where-insert_by_age :
    (p : AgentCommand → Bool) (c : AgentCommand) (rows : Commands)
    → exists_where p (insert_by_age c rows) ≡ (p c || exists_where p rows)
unfolding exists_where insert_by_age
exists_where-insert_by_age p c [] = ground arith
exists_where-insert_by_age p c (d ∷ rows) = ground (arith, exists_where-insert_by_age p c rows)

exists_where-by_age :
    (p : AgentCommand → Bool) (rows : Commands) → exists_where p (by_age rows) ≡ exists_where p rows
unfolding exists_where by_age
exists_where-by_age p [] = refl
exists_where-by_age p (c ∷ rows) =
    exists_where-insert_by_age p c (by_age rows) ∙ ground (arith, exists_where-by_age p rows)

abbrev pub UniqueIds : Commands → Type 0
UniqueIds rows = Unique (λ c. c.id) rows

abbrev pub command_of : Text → Commands → Option AgentCommand
command_of id rows = row_of (λ c. c.id) id rows

-- the sub-select names no command that is finished
not_oldest :
    (organization_id server_id : Text) (limit now : ℕ) (rows : Commands) (c : AgentCommand)
    → UniqueIds rows
    → command_of c.id rows ≡ some c
    → is_open c.status ≡ false
    → exists_where (text_eq c.id) (oldest organization_id server_id limit now rows) ≡ false
unfolding oldest
not_oldest organization_id server_id limit now rows c unique found closed =
    let due = is_due organization_id server_id now in
    let gone =
      find_where-row_of-none (λ r. r.id) c.id (λ r. due r && text_eq c.id r.id) rows {r = c} unique
        found (λ r h. ground (arith, text_eq_iff c.id r.id)) (ground arith) in
    exists_where-map (text_eq c.id) (λ r. r.id) (take limit (by_age (select_where due rows)))
    ∙ exists_where-take (λ r. text_eq c.id r.id) limit (by_age (select_where due rows))
        (exists_where-by_age (λ r. text_eq c.id r.id) (select_where due rows)
          ∙ exists_where-select_where (λ r. text_eq c.id r.id) due rows
          ∙ exists_where-none (λ r. due r && text_eq c.id r.id) rows gone)

claim_commands-finished :
    (organization_id server_id : Text) (limit : ℕ) (base_url : Option Text) (now : ℕ)
    (rows : Commands) (c : AgentCommand)
    → UniqueIds rows
    → command_of c.id rows ≡ some c
    → is_open c.status ≡ false
    → (command_of c.id (claim_commands organization_id server_id limit base_url now rows).1
        ≡ some c)
      × UniqueIds (claim_commands organization_id server_id limit base_url now rows).1
unfolding claim_commands with_tenant settle
claim_commands-finished organization_id server_id limit base_url now rows c unique found closed =
    let overdue = is_overdue organization_id server_id now in
    let live = update_where overdue expire rows in
    let kept : command_of c.id live ≡ some c =
      row_of-update (λ r. r.id) c.id overdue expire rows {r = c} (λ r. refl) found ∙ ground arith in
    let unique' = Unique-update_where (λ r. r.id) overdue expire rows (λ r. refl) unique in
    let ids = oldest organization_id server_id limit now live in
    let apart = not_oldest organization_id server_id limit now live c unique' kept closed in
    let after : command_of c.id (update_where (is_chosen organization_id ids) (deliver now) live)
        ≡ some c =
      row_of-update (λ r. r.id) c.id (is_chosen organization_id ids) (deliver now) live {r = c}
        (λ r. refl) kept
      ∙ ground arith in
    let unique'' =
      Unique-update_where (λ r. r.id) (is_chosen organization_id ids) (deliver now) live (λ r. refl)
        unique' in
    elim (Bool-cases (is_id (codes "org_") organization_id)) [
      | inl e ↦ rw e (after, unique'')
      | inr e ↦ rw e (found, unique)
    ]

report_all-finished :
    (organization_id server_id : Text) (now : ℕ) (results : List CommandResult) (rows : Commands)
    (c : AgentCommand)
    → UniqueIds rows
    → command_of c.id rows ≡ some c
    → is_open c.status ≡ false
    → (command_of c.id (report_all organization_id server_id now results rows).1 ≡ some c)
      × UniqueIds (report_all organization_id server_id now results rows).1
unfolding report_all
report_all-finished organization_id server_id now [] rows c unique found closed = (found, unique)
report_all-finished organization_id server_id now (r ∷ results) rows c unique found closed =
    let hit = is_reported organization_id server_id r.id in
    report_all-finished organization_id server_id now results
      (update_where hit (conclude r now) rows) c
      (Unique-update_where (λ r. r.id) hit (conclude r now) rows (λ r. refl) unique)
      (row_of-update (λ r. r.id) c.id hit (conclude r now) rows {r = c} (λ r. refl) found
        ∙ ground arith)
      closed

command_results-finished :
    (organization_id server_id : Text) (now : ℕ) (results : List CommandResult) (rows : Commands)
    (c : AgentCommand)
    → UniqueIds rows
    → command_of c.id rows ≡ some c
    → is_open c.status ≡ false
    → (command_of c.id (command_results organization_id server_id now results rows).1 ≡ some c)
      × UniqueIds (command_results organization_id server_id now results rows).1
unfolding command_results with_tenant settle
command_results-finished organization_id server_id now results rows c unique found closed =
    elim (Bool-cases (is_id (codes "org_") organization_id)) [
      | inl e ↦
          rw e
            (report_all-finished organization_id server_id now results rows c unique found closed)
      | inr e ↦ rw e (found, unique)
    ]

-- A poll or a report, of any agent.
pub data Exchange : Type 0 where
  poll : Text → Text → ℕ → Option Text → ℕ → Exchange
  report : Text → Text → ℕ → List CommandResult → Exchange

abbrev pub exchange : Exchange → Commands → Commands
exchange (poll organization_id server_id limit base_url now) rows =
    (claim_commands organization_id server_id limit base_url now rows).1
exchange (report organization_id server_id now results) rows =
    (command_results organization_id server_id now results rows).1

abbrev pub exchanges : List Exchange → Commands → Commands
exchanges [] rows = rows
exchanges (e ∷ rest) rows = exchanges rest (exchange e rows)

exchange-finished :
    (e : Exchange) (rows : Commands) (c : AgentCommand)
    → UniqueIds rows
    → command_of c.id rows ≡ some c
    → is_open c.status ≡ false
    → (command_of c.id (exchange e rows) ≡ some c) × UniqueIds (exchange e rows)
exchange-finished (poll organization_id server_id limit base_url now) rows c unique found closed =
    claim_commands-finished organization_id server_id limit base_url now rows c unique found closed
exchange-finished (report organization_id server_id now results) rows c unique found closed =
    command_results-finished organization_id server_id now results rows c unique found closed

-- Whatever agents poll and report afterwards, a command that was acknowledged, has failed or has
-- expired stays as it is, if the identifiers of the commands are unique: its result is not
-- overwritten, and it is not sent again.
pub finished_stays :
    (steps : List Exchange) (rows : Commands) (c : AgentCommand)
    → UniqueIds rows
    → command_of c.id rows ≡ some c
    → is_open c.status ≡ false
    → command_of c.id (exchanges steps rows) ≡ some c
finished_stays [] rows c unique found closed = found
finished_stays (e ∷ steps) rows c unique found closed =
    let (kept, unique') = exchange-finished e rows c unique found closed in
    finished_stays steps (exchange e rows) c unique' kept closed

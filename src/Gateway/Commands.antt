-- ===== src/Gateway/Commands.antt =====
-- agent-gateway/service.ts: `claimCommands` and `commandResults`, over the table agent_commands.
pub mod Finished
use mathlib.Core.Option
use z_shield.Prelude.{
  ℕ, suc, ◌+◌, Bool, true, false, not, ◌&&◌, ◌||◌, Option, none, some, List, [], ◌∷◌, ◌++◌, map,
  ltb, leb, if◌then◌else◌, is_some,
}
use z_shield.Text.{Text, codes, text_eq, take, join}
use z_shield.Table.{update_where, delete_where, select_where, find_where, count_where, exists_where}
use z_shield.Tenant.{Result, ok, with_tenant}

-- A value of a payload.
pub data Scalar : Type 0 where
  string : Text → Scalar
  other : Scalar

abbrev pub Payload : Type 0
Payload = List (Text × Scalar)

pub data CommandStatus : Type 0 where
  pending sent acknowledged failed expired : CommandStatus

-- status IN ('PENDING', 'SENT')
abbrev pub is_open : CommandStatus → Bool
is_open pending = true
is_open sent = true
is_open _ = false

-- a row of agent_commands
pub record AgentCommand : Type 0 where
  pub id : Text
  pub organization_id : Text
  pub server_id : Text
  pub type : Text
  pub payload : Payload
  pub status : CommandStatus
  pub result : Option Text
  pub result_detail : Payload
  pub reason : Option Text
  pub sent_at : Option ℕ
  pub delivery_count : ℕ
  pub acknowledged_at : Option ℕ
  pub executed_at : Option ℕ
  pub duration_ms : Option ℕ
  pub expires_at : ℕ
  pub created_at : ℕ

abbrev pub Commands : Type 0
Commands = List AgentCommand

-- the command of a poll, as it is returned
pub record Delivered : Type 0 where
  pub id : Text
  pub type : Text
  pub issued_at : ℕ
  pub expires_at : ℕ
  pub payload : Payload

abbrev pub is_of_server : Text → Text → AgentCommand → Bool
is_of_server organization_id server_id c =
    text_eq c.organization_id organization_id && text_eq c.server_id server_id

abbrev pub is_overdue : Text → Text → ℕ → AgentCommand → Bool
is_overdue organization_id server_id now c =
    is_of_server organization_id server_id c && (is_open c.status && leb c.expires_at now)

abbrev pub is_due : Text → Text → ℕ → AgentCommand → Bool
is_due organization_id server_id now c =
    is_of_server organization_id server_id c && (is_open c.status && ltb now c.expires_at)

-- ORDER BY created_at
insert_by_age : AgentCommand → Commands → Commands
insert_by_age c [] = c ∷ []
insert_by_age c (d ∷ rows) =
    let rest = insert_by_age c rows in
    if leb c.created_at d.created_at then c ∷ d ∷ rows else d ∷ rest

unfoldable pub by_age : Commands → Commands
unfolding insert_by_age
by_age [] = []
by_age (c ∷ rows) = insert_by_age c (by_age rows)

-- The sub-select: the keys of the oldest commands that are due.
unfoldable pub oldest : Text → Text → ℕ → ℕ → Commands → List Text
oldest organization_id server_id limit now rows =
    map (λ c. c.id) (take limit (by_age (select_where (is_due organization_id server_id now) rows)))

abbrev pub is_chosen : Text → List Text → AgentCommand → Bool
is_chosen organization_id ids c =
    text_eq c.organization_id organization_id && exists_where (text_eq c.id) ids

abbrev coalesce : Option ℕ → ℕ → ℕ
coalesce (some a) b = a
coalesce none b = b

abbrev pub deliver : ℕ → AgentCommand → AgentCommand
deliver now c = record c {
  status = sent;
  sent_at = some (coalesce c.sent_at now);
  delivery_count = suc c.delivery_count;
}

abbrev is_named : Text → Text × Scalar → Bool
is_named key entry = text_eq entry.0 key

abbrev string_at : Text → Payload → Option Text
string_at key payload = elim (find_where (is_named key) payload) [
  | some (k, string s) ↦ some s
  | _ ↦ none
]

abbrev put : Text → Scalar → Payload → Payload
put key value payload = delete_where (is_named key) payload ++ ((key, value) ∷ [])

-- the payload of a capture, with the URL of the upload in place of the token
abbrev with_url : Text → Option Text → Option Text → Option Text → Payload → Payload
with_url organization_id (some base_url) (some token) (some capture_id) rest =
    put (codes "upload_url")
      (string (
        base_url
        ++ (codes "/api/evidence/upload/"
            ++ (organization_id ++ (b'/' ∷ (capture_id ++ (codes "?t=" ++ token)))))))
      rest
with_url organization_id _ _ _ rest = rest

abbrev pub sent_payload : Text → Option Text → AgentCommand → Payload
sent_payload organization_id base_url c =
    if text_eq c.type (codes "capture_request")
    then (let rest = delete_where (is_named (codes "token")) c.payload in
        with_url organization_id base_url (string_at (codes "token") c.payload)
          (string_at (codes "capture_id") rest) rest)
    else c.payload

abbrev pub delivered : Text → Option Text → AgentCommand → Delivered
delivered organization_id base_url c = record {
  id = c.id;
  type = c.type;
  issued_at = c.created_at;
  expires_at = c.expires_at;
  payload = sent_payload organization_id base_url c;
}

abbrev pub expire : AgentCommand → AgentCommand
expire c = record c { status = expired }

-- the two UPDATEs of `claimCommands`
unfoldable pub claim_body :
    Text → Text → ℕ → Option Text → ℕ → Commands → Result (List Delivered) × Commands
claim_body organization_id server_id limit base_url now rows =
    let live = update_where (is_overdue organization_id server_id now) expire rows in
    let ids = oldest organization_id server_id limit now live in
    (
      ok (
          map (λ c. delivered organization_id base_url (deliver now c))
            (select_where (is_chosen organization_id ids) live)),
      update_where (is_chosen organization_id ids) (deliver now) live,
    )

-- `claimCommands`
unfoldable pub claim_commands :
    Text → Text → ℕ → Option Text → ℕ → Commands → Result (List Delivered) × Commands
unfolding claim_body
claim_commands organization_id server_id limit base_url now rows =
    with_tenant organization_id (claim_body organization_id server_id limit base_url now) rows

-- What an agent reports of a command; `status` is COMPLETED, FAILED, REJECTED or DUPLICATE.
pub record CommandResult : Type 0 where
  pub id : Text
  pub status : Text
  pub result : Payload
  pub reason : Option Text
  pub executed_at : ℕ
  pub duration_ms : Option ℕ

abbrev pub is_reported : Text → Text → Text → AgentCommand → Bool
is_reported organization_id server_id id c =
    is_of_server organization_id server_id c && (text_eq c.id id && is_open c.status)

abbrev pub conclude : CommandResult → ℕ → AgentCommand → AgentCommand
conclude r now c = record c {
  status = if text_eq r.status (codes "FAILED") then failed else acknowledged;
  result = some r.status;
  result_detail = r.result;
  reason = r.reason;
  acknowledged_at = some now;
  executed_at = some r.executed_at;
  duration_ms = r.duration_ms;
}

-- the loop of `commandResults`, with the identifiers that are acknowledged
unfoldable pub report_all : Text → Text → ℕ → List CommandResult → Commands → List Text × Commands
report_all organization_id server_id now [] rows = ([], rows)
report_all organization_id server_id now (r ∷ results) rows =
    let hit = is_reported organization_id server_id r.id in
    let (ids, after) =
      report_all organization_id server_id now results (update_where hit (conclude r now) rows) in
    (if ltb 0 (count_where hit rows) then r.id ∷ ids else ids, after)

-- `commandResults`
unfoldable pub command_results :
    Text → Text → ℕ → List CommandResult → Commands → Result (List Text) × Commands
command_results organization_id server_id now results rows =
    with_tenant organization_id
      (λ r.
        let (ids, after) = report_all organization_id server_id now results r in (ok ids, after))
      rows

-- ===== src/Tests/Routes.antt =====
-- A route of the agents, and the commands of a server.
use z_shield.Prelude.{◌≡◌, refl, Option, none, some, List, [], ◌∷◌}
use z_shield.Text.{Text, codes, text_eq, take, drop}
use z_shield.Table.{find_where, update_where, select_where, exists_where, count_where}
use z_shield.Tenant.{Result, ok, with_tenant, is_id}
use z_shield.Gateway.Authenticate.{AgentAuthContext, authenticate}
use z_shield.Gateway.Respond.{Body, Sending}
use z_shield.Gateway.Handlers.{Envelope, GatewayState, post_route}
use z_shield.Gateway.Handlers.Signed.{Outcome, post_route_lem}
use z_shield.Gateway.Commands.{
  AgentCommand, Commands, pending, acknowledged, CommandResult, claim_commands, command_results,
  report_all, oldest, by_age,
}
use z_shield.Gateway.Commands.Finished.{poll, report, exchanges, command_of, finished_stays}
use z_shield.Tests.Keys.{keys}
use z_shield.Tests.Gateway.{signing, settings, at, empty_cache, agent_request}
use z_shield.Tests.Accounts.{org}

-- The body as its own JSON, in an envelope of the agent.
abbrev envelope_of : Text → Option (Envelope Text)
envelope_of json = some (record {
  kind = codes "heartbeat";
  server_id = codes "srv_1";
  agent_id = codes "agt_1";
  payload = json;
})

-- A service that keeps the payloads.
abbrev keep : AgentAuthContext → Text → List Text → Result (Option Body) × List Text
keep ctx payload kept = (ok (some []), payload ∷ kept)

abbrev stringify : Body → Text
stringify body = []

abbrev sending : Sending
sending = record { now = 1000000; nonce = codes "00" }

abbrev state : GatewayState (List Text)
state = record { credentials = keys; cache = empty_cache; service = [] }

post_route_lem_example :
    Outcome signing stringify sending some envelope_of some
      (settings 900)
      (at 1000000).moment
      (λ e. [])
      (codes "heartbeat")
      keep
      (authenticate signing
        (settings 900)
        (at 1000000).moment
        agent_request
        (codes "{}")
        keys
        empty_cache).0
      state
      (post_route signing stringify sending some envelope_of some
        (settings 900)
        (at 1000000).moment
        (λ e. [])
        (codes "heartbeat")
        keep
        agent_request
        (codes "{}")
        state)
post_route_lem_example =
    post_route_lem signing stringify sending some envelope_of some (settings 900)
      (at 1000000).moment (λ e. []) (codes "heartbeat") keep agent_request (codes "{}") state

abbrev command : AgentCommand
command = record {
  id = codes "cmd_00000001";
  organization_id = org;
  server_id = codes "srv_1";
  type = codes "kick";
  payload = [];
  status = pending;
  result = none;
  result_detail = [];
  reason = none;
  sent_at = none;
  delivery_count = 0;
  acknowledged_at = none;
  executed_at = none;
  duration_ms = none;
  expires_at = 100;
  created_at = 1;
}

abbrev result : Text → CommandResult
result status = record {
  id = codes "cmd_00000001";
  status = status;
  result = [];
  reason = none;
  executed_at = 5;
  duration_ms = none;
}

-- The agent polls and reports.
abbrev reported : Commands
reported =
    exchanges
      (poll org (codes "srv_1") 25 none 3
        ∷ report org (codes "srv_1") 6 (result (codes "COMPLETED") ∷ [])
        ∷ [])
      (command ∷ [])

abbrev finished : AgentCommand
finished = record command {
  status = acknowledged;
  result = some (codes "COMPLETED");
  sent_at = some 3;
  delivery_count = 1;
  acknowledged_at = some 6;
  executed_at = some 5;
}

command_is_reported : reported ≡ finished ∷ []
unfolding claim_commands command_results report_all with_tenant is_id take text_eq update_where
    select_where exists_where count_where oldest by_age drop
command_is_reported = refl

finished_found : command_of (codes "cmd_00000001") (finished ∷ []) ≡ some finished
unfolding find_where text_eq
finished_found = refl

-- A report of a failure and a poll after it change nothing.
finished_stays_example :
    command_of (codes "cmd_00000001") (
      exchanges
        (report org (codes "srv_1") 7 (result (codes "FAILED") ∷ [])
          ∷ poll org (codes "srv_1") 25 none 8
          ∷ [])
        (finished ∷ []))
    ≡ some finished
finished_stays_example =
    finished_stays
      (report org (codes "srv_1") 7 (result (codes "FAILED") ∷ [])
        ∷ poll org (codes "srv_1") 25 none 8
        ∷ [])
      (finished ∷ []) finished (tt, tt) finished_found refl

-- ===== src/Tests/Realtime.antt =====
-- A socket, and messages to its organization and to another one.
use z_shield.Prelude.{◌≡◌, refl, true, some, List, [], ◌∷◌, ◌++◌, All}
use z_shield.Text.{Text, codes, text_eq, take, drop}
use z_shield.Table.{find_where, exists_where, update_where}
use z_shield.Crypto.{hash_token}
use z_shield.Tenant.{with_user, is_id}
use z_shield.Auth.Sessions.{resolve_session, resolve_role, role_in}
use z_shield.Realtime.{
  RealtimeHub, SocketState, writable, Delivery, organization_channel, fan_out, ensure_subscribed,
  add, Connection, connect,
}
use z_shield.Realtime.Isolation.{started, connected, published, Addressed, sent-Addressed}
use z_shield.Tests.Runtime.{toy}
use z_shield.Tests.Accounts.{accounts, token_a, usr_a, org}

abbrev connection : Connection
connection = record {
  socket = codes "socket";
  token = some token_a;
  now = 5;
  up = true;
  db = accounts;
}

abbrev alone : RealtimeHub
alone = (connect toy connection (record { clients = []; subscribed = [] })).1

abbrev all_writable : Text → SocketState
all_writable socket = writable

abbrev first : List Delivery
first = (fan_out all_writable (organization_channel org) (codes "alert") alone.clients).1

abbrev still : RealtimeHub
still = record alone {
  clients = (fan_out all_writable (organization_channel org) (codes "alert") alone.clients).0;
}

abbrev second : List Delivery
second =
    (fan_out all_writable (organization_channel (codes "org_b")) (codes "other") still.clients).1

sent_runs :
    second ++ first
    ≡ record {
      client = record { socket = codes "socket"; organization_id = org; user_id = usr_a };
      channel = organization_channel org;
      message = codes "alert";
    }
      ∷ []
unfolding connect fan_out add ensure_subscribed resolve_session resolve_role role_in with_user is_id
    find_where exists_where update_where text_eq take drop hash_token
sent_runs = refl

sent-Addressed_example : All (Addressed toy (connection ∷ [])) (second ++ (first ++ []))
sent-Addressed_example =
    sent-Addressed toy (connection ∷ [])
      (record still {
        clients =
            (fan_out all_writable (organization_channel (codes "org_b")) (codes "other")
              still.clients).0;
      })
      (second ++ (first ++ []))
      (published all_writable (organization_channel (codes "org_b")) (codes "other") (
        published all_writable (organization_channel org) (codes "alert")
          (connected connection started)))

-- ===== src/Realtime.antt =====
-- realtime/websocket.ts: the sockets of the dashboard and the messages that are fanned out to them.
pub mod Isolation
use z_shield.Prelude.{
  ℕ, Bool, true, false, not, Option, none, some, List, [], ◌∷◌, ◌++◌, ltb, length, if◌then◌else◌,
}
use z_shield.Text.{Text, codes, text_eq}
use z_shield.Table.{exists_where, delete_where}
use z_shield.Crypto.{Node}
use z_shield.Rbac.{Role}
use z_shield.Tenant.{Result, ok, err, unavailable}
use z_shield.Db.{Db}
use z_shield.Auth.Sessions.{SessionContext, resolve_session, resolve_role}

-- A client, with the name of its socket.
pub record Client : Type 0 where
  pub socket : Text
  pub organization_id : Text
  pub user_id : Text

pub record RealtimeHub : Type 0 where
  pub clients : List Client
  pub subscribed : List Text

-- `organizationChannel` of lib/redis.ts
abbrev pub organization_channel : Text → Text
organization_channel organization_id = codes "org:" ++ organization_id

-- A socket that is not open, one that takes messages, and one whose `send` throws.
pub data SocketState : Type 0 where
  shut writable failing : SocketState

-- A message that a socket was sent.
pub record Delivery : Type 0 where
  pub client : Client
  pub channel : Text
  pub message : Text

abbrev pub offer :
    SocketState → Client → Text → Text → List Client × List Delivery → List Client × List Delivery
offer shut client channel message (kept, sent) = (client ∷ kept, sent)
offer writable client channel message (kept, sent) =
    (client ∷ kept, record { client = client; channel = channel; message = message } ∷ sent)
offer failing client channel message (kept, sent) = (kept, sent)

-- `fanOut`: the clients that stay, and what was sent
unfoldable pub fan_out :
    (Text → SocketState) → Text → Text → List Client → List Client × List Delivery
fan_out state channel message [] = ([], [])
fan_out state channel message (client ∷ clients) =
    let (kept, sent) = fan_out state channel message clients in
    if text_eq (organization_channel client.organization_id) channel
    then offer (state client.socket) client channel message (kept, sent)
    else (client ∷ kept, sent)

-- `ensureSubscribed`; `up` tells that Redis answers
unfoldable pub ensure_subscribed : Bool → Text → RealtimeHub → Result (Unit {0}) × RealtimeHub
ensure_subscribed up organization_id hub =
    let channel = organization_channel organization_id in
    if exists_where (text_eq channel) hub.subscribed
    then (ok tt, hub)
    else if up
    then (ok tt, record hub { subscribed = hub.subscribed ++ (channel ∷ []) })
    else (err unavailable, hub)

abbrev added : Client → Result (Unit {0}) × RealtimeHub → Result (Unit {0}) × RealtimeHub
added client (ok u, hub) = (ok u, record hub { clients = hub.clients ++ (client ∷ []) })
added client (err e, hub) = (err e, hub)

-- `add`
unfoldable pub add : Bool → Client → RealtimeHub → Result (Unit {0}) × RealtimeHub
unfolding ensure_subscribed
add up client hub = added client (ensure_subscribed up client.organization_id hub)

-- the handlers of `close` and `error`
unfoldable pub drop_client : Text → RealtimeHub → RealtimeHub
drop_client socket hub = record hub {
  clients = delete_where (λ c. text_eq c.socket socket) hub.clients;
}

-- 4401, 4403, and the first message with the role
pub data WsOutcome : Type 0 where
  unauthorized forbidden : WsOutcome
  ready : Role → WsOutcome

-- A request for a socket, and the database that it finds.
pub record Connection : Type 0 where
  pub socket : Text
  pub token : Option Text
  pub now : ℕ
  pub up : Bool
  pub db : Db

module _ (node : Node) where
  abbrev pub readied : Role → Result (Unit {0}) × RealtimeHub → Result WsOutcome × RealtimeHub
  readied role (ok u, hub) = (ok (ready role), hub)
  readied role (err e, hub) = (err e, hub)

  abbrev pub welcome :
      Connection
      → SessionContext
      → Text
      → Result (Option Role)
      → RealtimeHub
      → Result WsOutcome × RealtimeHub
  welcome c context organization_id (ok (some role)) hub = readied role (
      add c.up
        (record {
          socket = c.socket;
          organization_id = organization_id;
          user_id = context.session.user_id;
        })
        hub)
  welcome c context organization_id (ok none) hub = (ok forbidden, hub)
  welcome c context organization_id (err e) hub = (err e, hub)

  abbrev pub on_organization :
      Connection → SessionContext → Option Text → Db → RealtimeHub → Result WsOutcome × RealtimeHub
  on_organization c context none db hub = (ok unauthorized, hub)
  on_organization c context (some organization_id) db hub =
      welcome c context organization_id (resolve_role context.session.user_id organization_id db).0
        hub

  abbrev pub admit :
      Connection → Option SessionContext → Db → RealtimeHub → Result WsOutcome × RealtimeHub
  admit c none db hub = (ok unauthorized, hub)
  admit c (some context) db hub =
      if context.session.mfa_satisfied
      then on_organization c context context.session.organization_id db hub
      else (ok unauthorized, hub)

  abbrev pub with_cookie : Connection → Option Text → RealtimeHub → Result WsOutcome × RealtimeHub
  with_cookie c none hub = (ok unauthorized, hub)
  with_cookie c (some token) hub =
      let (context, db) = resolve_session node token c.now c.db in admit c context db hub

  -- GET /ws
  unfoldable pub connect : Connection → RealtimeHub → Result WsOutcome × RealtimeHub
  unfolding add
  connect c hub = with_cookie c c.token hub

-- What a socket sends is answered only where it is a ping; `parsed_type` is `JSON.parse` and the
-- field `type` of its result.
unfoldable pub answers : (Text → Option Text) → Text → Bool
answers parsed_type raw =
    if ltb 256 (length raw)
    then false
    else elim (parsed_type raw) [ none ↦ false | some t ↦ text_eq t (codes "ping") ]

-- ===== src/Gateway/Handlers.antt =====
-- agent-gateway/routes.ts: what every route of the agents does around the call of the service.
pub mod Signed
use z_shield.Prelude.{
  ℕ, Bool, true, false, not, ◌&&◌, ◌||◌, Option, none, some, List, [], ◌∷◌, if◌then◌else◌,
}
use z_shield.Text.{Text, codes, text_eq}
use z_shield.Crypto.{Bytes, Node}
use z_shield.Tenant.{Result, ok, err}
use z_shield.Gateway.Protocol.{AgentErrorCode, validation, internal, auth_credential_revoked}
use z_shield.Gateway.Replay.{Cache}
use z_shield.Gateway.Credentials.{Credentials, touch}
use z_shield.Gateway.Authenticate.{
  AgentRequest, AgentAuthContext, AgentAuthError, Authentication, accepted, refused, failed, Moment,
  Settings, authenticate,
}
use z_shield.Gateway.Respond.{
  Body, Reply, SignableContext, Sending, send_signed_ok, send_signed_error, send_unsignable_error,
}

-- What the tests read of an envelope; `J` is the type of JSON values.
pub record Envelope (J : Type 0) : Type 0 where
  pub kind : Text
  pub server_id : Text
  pub agent_id : Text
  pub payload : J

-- The tables of the gateway, the cache, and the tables of the service.
pub record GatewayState (S : Type 0) : Type 0 where
  pub credentials : Credentials
  pub cache : Cache
  pub service : S

pub data Parsing (P : Type 0) : Type 0 where
  replied : Reply → Parsing P
  payload : P → Parsing P

abbrev pub signable_of : AgentAuthContext → SignableContext
signable_of ctx = record { secret = ctx.credential.secret; request_id = ctx.request_id }

module _ (node : Node) (stringify : Body → Text) (sending : Sending) where
  -- `handle`, on what the service returned: an object, null, or an exception
  unfoldable pub reply_of : AgentAuthContext → Result (Option Body) → Reply
  reply_of ctx (ok (some body)) = send_signed_ok node stringify sending body (signable_of ctx)
  reply_of ctx (ok none) =
      send_signed_error node stringify sending 404 auth_credential_revoked
        (codes "server no longer exists") (signable_of ctx) none
  reply_of ctx (err e) =
      send_signed_error node stringify sending 500 internal (codes "internal error")
        (signable_of ctx) (some 30)

  -- the reply of `guard` to an exception of the authentication, whose message `message` is
  unfoldable pub reply_to_error : (AgentAuthError → Text) → AgentAuthError → Reply
  reply_to_error message e =
      send_unsignable_error node stringify sending e.status e.code (message e) e.retry_after

  unfoldable pub reply_to_failure : Reply
  reply_to_failure =
      send_unsignable_error node stringify sending 500 internal (codes "internal error") (some 30)

  -- `parse_json` is JSON.parse; the schemas, which zod runs, return a value or nothing
  module _ {J P : Type 0} (parse_json : Bytes → Option J)
      (envelope_schema : J → Option (Envelope J)) (payload_schema : J → Option P) where
    abbrev invalid : AgentAuthContext → Text → Parsing P
    invalid ctx message =
        replied
          (send_signed_error node stringify sending 400 validation message (signable_of ctx) none)

    abbrev parse_payload : AgentAuthContext → Option P → Parsing P
    parse_payload ctx none = invalid ctx (codes "invalid payload")
    parse_payload ctx (some p) = payload p

    abbrev check_envelope : AgentAuthContext → Text → Option (Envelope J) → Parsing P
    check_envelope ctx kind none = invalid ctx (codes "invalid envelope")
    check_envelope ctx kind (some envelope) =
        if not (text_eq envelope.server_id ctx.server_id)
          || not (text_eq envelope.agent_id ctx.agent_id)
        then invalid ctx (codes "envelope identity does not match signed headers")
        else if not (text_eq envelope.kind kind)
        then invalid ctx (codes "envelope kind mismatch")
        else parse_payload ctx (payload_schema envelope.payload)

    abbrev decode : AgentAuthContext → Text → Option J → Parsing P
    decode ctx kind none = invalid ctx (codes "body is not valid JSON")
    decode ctx kind (some json) = check_envelope ctx kind (envelope_schema json)

    -- `parseEnvelope`; the messages leave out the field that zod names
    unfoldable pub parse_envelope : AgentAuthContext → Text → Parsing P
    parse_envelope ctx kind = decode ctx kind (parse_json ctx.raw_body)

    module _ {S : Type 0} (settings : Settings) (moment : Moment) (message : AgentAuthError → Text)
        (kind : Text) (work : AgentAuthContext → P → S → Result (Option Body) × S) where
      abbrev concluded :
          AgentAuthContext → GatewayState S → Result (Option Body) × S → Reply × GatewayState S
      concluded ctx state (result, service) =
          (reply_of ctx result, record state { service = service })

      abbrev dispatch : AgentAuthContext → Parsing P → GatewayState S → Reply × GatewayState S
      dispatch ctx (replied reply) state = (reply, state)
      dispatch ctx (payload p) state = concluded ctx state (work ctx p state.service)

      -- `guard`: after an accepted request, `touch` runs, whose failure is ignored
      abbrev guarded : Authentication × Cache → GatewayState S → Reply × GatewayState S
      guarded (refused e, cache) state = (reply_to_error message e, record state { cache = cache })
      guarded (failed, cache) state = (reply_to_failure, record state { cache = cache })
      guarded (accepted ctx, cache) state = dispatch ctx (parse_envelope ctx kind) (record state {
        cache = cache;
        credentials =
            (touch ctx.credential.organization_id ctx.key_id moment.now state.credentials).1;
      })

      -- a POST route: `guard`, then `parseEnvelope`, then `handle`
      unfoldable pub post_route : AgentRequest → Bytes → GatewayState S → Reply × GatewayState S
      post_route request raw_body state =
          guarded (authenticate node settings moment request raw_body state.credentials state.cache)
            state

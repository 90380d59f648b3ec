-- ===== src/Gateway/Handlers/Signed.antt =====
-- Which replies to agents are signed, and which requests reach the service.
use z_shield.Prelude.{◌≡◌, refl, sym, Option, none, some, Bool-cases, inl, inr, ◌⊎◌}
use mathlib.Core.Path.{subst}
use z_shield.Text.{Text, text_eq}
use z_shield.Text.Lines.{text_eq_iff}
use z_shield.Crypto.{Bytes, Node}
use z_shield.Tenant.{Result, ok, err}
use z_shield.Gateway.Protocol.{canonical_response}
use z_shield.Gateway.Replay.{Cache}
use z_shield.Gateway.Credentials.{touch}
use z_shield.Gateway.Authenticate.{
  AgentRequest, AgentAuthContext, AgentAuthError, Authentication, accepted, refused, failed, Moment,
  Settings, authenticate,
}
use z_shield.Gateway.Respond.{
  Body, Reply, Signature, Sending, send_signed, send_signed_ok, send_signed_error,
  send_unsignable_error,
}
use z_shield.Gateway.Handlers.{
  Envelope, GatewayState, Parsing, replied, payload, reply_of, reply_to_error, reply_to_failure,
  parse_envelope, post_route, dispatch, guarded, invalid, parse_payload, check_envelope, decode,
}

module _ (node : Node) (stringify : Body → Text) (sending : Sending) where
  -- The reply carries the signature of its status and its body, under the secret of the context.
  pub record IsSignedFor (ctx : AgentAuthContext) (reply : Reply) : Type 0 where
    pub signature : Signature
    pub carried : reply.signature ≡ some signature
    pub valid :
        signature.value
        ≡ node.hmac_sha256 ctx.credential.secret (
            canonical_response (record {
              status = reply.status;
              request_id = ctx.request_id;
              timestamp = signature.timestamp;
              nonce = signature.nonce;
              body_hash = node.sha256 reply.body;
            }))

  reply_of-IsSignedFor :
      (ctx : AgentAuthContext) (result : Result (Option Body))
      → IsSignedFor ctx (reply_of node stringify sending ctx result)
  unfolding reply_of send_signed_ok send_signed_error send_signed
  reply_of-IsSignedFor ctx (ok (some body)) = record { signature = _; carried = refl; valid = refl }
  reply_of-IsSignedFor ctx (ok none) = record { signature = _; carried = refl; valid = refl }
  reply_of-IsSignedFor ctx (err e) = record { signature = _; carried = refl; valid = refl }

  module _ {J P : Type 0} (parse_json : Bytes → Option J)
      (envelope_schema : J → Option (Envelope J)) (payload_schema : J → Option P) where
    -- The body of an accepted request is an envelope of the agent and server that have signed it,
    -- of this kind, with this payload.
    pub record Enveloped (ctx : AgentAuthContext) (kind : Text) (p : P) : Type 0 where
      pub json : J
      pub parsed : parse_json ctx.raw_body ≡ some json
      pub envelope : Envelope J
      pub schema : envelope_schema json ≡ some envelope
      pub same_server : envelope.server_id ≡ ctx.server_id
      pub same_agent : envelope.agent_id ≡ ctx.agent_id
      pub same_kind : envelope.kind ≡ kind
      pub payload_valid : payload_schema envelope.payload ≡ some p

    -- Either a signed reply in place of a payload, or the payload of an envelope.
    abbrev Verdict : AgentAuthContext → Text → Parsing P → Type 0
    Verdict ctx kind r =
        ((reply : Reply) × (r ≡ replied reply) × IsSignedFor ctx reply)
        ⊎ ((p : P) × (r ≡ payload p) × Enveloped ctx kind p)

    abbrev refusal_of : AgentAuthContext → Text → Parsing P
    refusal_of ctx message =
        invalid node stringify sending parse_json envelope_schema payload_schema ctx message

    invalid-Verdict :
        (ctx : AgentAuthContext) (kind message : Text) → Verdict ctx kind (refusal_of ctx message)
    unfolding send_signed_error send_signed
    invalid-Verdict ctx kind message =
        inl (_, refl, record { signature = _; carried = refl; valid = refl })

    payload-Verdict :
        (ctx : AgentAuthContext) (kind : Text) (json : J) (envelope : Envelope J) (o : Option P)
        → parse_json ctx.raw_body ≡ some json
        → envelope_schema json ≡ some envelope
        → envelope.server_id ≡ ctx.server_id
        → envelope.agent_id ≡ ctx.agent_id
        → envelope.kind ≡ kind
        → payload_schema envelope.payload ≡ o
        → Verdict ctx kind
            (parse_payload node stringify sending parse_json envelope_schema payload_schema ctx o)
    payload-Verdict ctx kind json envelope none parsed schema server agent same valid =
        invalid-Verdict ctx kind _
    payload-Verdict ctx kind json envelope (some p) parsed schema server agent same valid = inr (
      p,
      refl,
      record {
        json = json;
        parsed = parsed;
        envelope = envelope;
        schema = schema;
        same_server = server;
        same_agent = agent;
        same_kind = same;
        payload_valid = valid;
      },
    )

    envelope-Verdict :
        (ctx : AgentAuthContext) (kind : Text) (json : J) (o : Option (Envelope J))
        → parse_json ctx.raw_body ≡ some json
        → envelope_schema json ≡ o
        → Verdict ctx kind (
            check_envelope node stringify sending parse_json envelope_schema payload_schema ctx kind
              o)
    envelope-Verdict ctx kind json none parsed schema = invalid-Verdict ctx kind _
    envelope-Verdict ctx kind json (some envelope) parsed schema =
        elim (Bool-cases (text_eq envelope.server_id ctx.server_id)) [
          | inr e ↦ rw e (invalid-Verdict ctx kind _)
          | inl e ↦ elim (Bool-cases (text_eq envelope.agent_id ctx.agent_id)) [
            | inr f ↦ rw (e, f) (invalid-Verdict ctx kind _)
            | inl f ↦ elim (Bool-cases (text_eq envelope.kind kind)) [
              | inr g ↦ rw (e, f, g) (invalid-Verdict ctx kind _)
              | inl g ↦
                  rw (e, f, g)
                    (payload-Verdict ctx kind json envelope (payload_schema envelope.payload) parsed
                      schema ((text_eq_iff envelope.server_id ctx.server_id).0 e)
                      ((text_eq_iff envelope.agent_id ctx.agent_id).0 f)
                      ((text_eq_iff envelope.kind kind).0 g) refl)
            ]
          ]
        ]

    decode-Verdict :
        (ctx : AgentAuthContext) (kind : Text) (o : Option J)
        → parse_json ctx.raw_body ≡ o
        → Verdict ctx kind
            (decode node stringify sending parse_json envelope_schema payload_schema ctx kind o)
    decode-Verdict ctx kind none parsed = invalid-Verdict ctx kind _
    decode-Verdict ctx kind (some json) parsed =
        envelope-Verdict ctx kind json (envelope_schema json) parsed refl

    module _ {S : Type 0} (settings : Settings) (moment : Moment) (message : AgentAuthError → Text)
        (kind : Text) (work : AgentAuthContext → P → S → Result (Option Body) × S) where
      -- How a POST route leaves the tables of the service.
      abbrev pub Outcome : Authentication → GatewayState S → Reply × GatewayState S → Type 0
      Outcome answer state run =
          ((run.0.signature ≡ none) × (run.1.service ≡ state.service))
          ⊎ ((ctx : AgentAuthContext) × (answer ≡ accepted ctx)
              × IsSignedFor ctx run.0
              × ((run.1.service ≡ state.service)
                  ⊎ ((p : P) × Enveloped ctx kind p
                      × (run.1.service ≡ (work ctx p state.service).1))))

      abbrev dispatched : AgentAuthContext → GatewayState S → Parsing P → Reply × GatewayState S
      dispatched ctx state r =
          dispatch node stringify sending parse_json envelope_schema payload_schema settings moment
            message kind work ctx r state

      abbrev Dispatched : AgentAuthContext → GatewayState S → Parsing P → Type 0
      Dispatched ctx state r =
          IsSignedFor ctx (dispatched ctx state r).0
          × (((dispatched ctx state r).1.service ≡ state.service)
              ⊎ ((p : P) × Enveloped ctx kind p
                  × ((dispatched ctx state r).1.service ≡ (work ctx p state.service).1)))

      dispatch_lem :
          (ctx : AgentAuthContext) (state : GatewayState S) (r : Parsing P)
          → Verdict ctx kind r
          → Dispatched ctx state r
      dispatch_lem ctx state r (inl (reply, e, signed)) =
          subst (Dispatched ctx state) (sym e) (signed, inl refl)
      dispatch_lem ctx state r (inr (p, e, enveloped)) =
          subst (Dispatched ctx state) (sym e)
            (reply_of-IsSignedFor ctx (work ctx p state.service).0, inr (p, enveloped, refl))

      guarded_lem :
          (answer : Authentication × Cache) (state : GatewayState S)
          → Outcome answer.0 state (
              guarded node stringify sending parse_json envelope_schema payload_schema settings
                moment message kind work answer state)
      unfolding reply_to_error reply_to_failure send_unsignable_error parse_envelope
      guarded_lem (refused e, cache) state = inl (refl, refl)
      guarded_lem (failed, cache) state = inl (refl, refl)
      guarded_lem (accepted ctx, cache) state =
          let started : GatewayState S = record state {
            cache = cache;
            credentials =
                (touch ctx.credential.organization_id ctx.key_id moment.now state.credentials).1;
          } in
          let (signed, tables) =
            dispatch_lem ctx started
              (parse_envelope node stringify sending parse_json envelope_schema payload_schema ctx
                kind)
              (decode-Verdict ctx kind (parse_json ctx.raw_body) refl) in
          inr (ctx, refl, signed, tables)

      -- A POST route of the agents either answers without a signature and leaves the tables of the
      -- service as they were, or the request was authenticated and its reply carries the signature,
      -- under the secret of the agent, of its status and its body. The tables then change only by
      -- the work of the route on a payload whose envelope names the agent and the server that have
      -- signed the request, and the kind of the route.
      pub post_route_lem :
          (request : AgentRequest) (raw_body : Bytes) (state : GatewayState S)
          → Outcome
              (authenticate node settings moment request raw_body state.credentials state.cache).0
              state
              (post_route node stringify sending parse_json envelope_schema payload_schema settings
                moment message kind work request raw_body state)
      unfolding post_route
      post_route_lem request raw_body state =
          guarded_lem
            (authenticate node settings moment request raw_body state.credentials state.cache) state

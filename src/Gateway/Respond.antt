-- ===== src/Gateway/Respond.antt =====
-- agent-gateway/respond.ts: replies to agents, signed or not.
use z_shield.Prelude.{
  ℕ, Bool, true, false, Option, none, some, List, [], ◌∷◌, ◌++◌, ◌/◌, if◌then◌else◌,
}
use z_shield.Text.{Text, codes, text_eq}
use z_shield.Table.{update_where, exists_where}
use z_shield.Crypto.{Node}
use z_shield.Gateway.Protocol.{AgentErrorCode, canonical_response}

-- A value of a body; `nested` is an object or an array, as its JSON text.
pub data Value : Type 0 where
  flag : Bool → Value
  string : Text → Value
  number : ℕ → Value
  nested : Text → Value
  code : AgentErrorCode → Value

abbrev pub Body : Type 0
Body = List (Text × Value)

-- `{ ...body, key: value }`: a key that is there keeps its place
abbrev pub set_field : Text → Value → Body → Body
set_field key value body =
    if exists_where (λ f. text_eq f.0 key) body
    then update_where (λ f. text_eq f.0 key) (λ f. (f.0, value)) body
    else body ++ ((key, value) ∷ [])

abbrev set_fields : Body → Body → Body
set_fields [] body = body
set_fields ((key, value) ∷ more) body = set_fields more (set_field key value body)

-- What is sent. The three headers of a signature stand together or not at all.
pub record Signature : Type 0 where
  pub timestamp : ℕ
  pub nonce : Text
  pub value : Text

pub record Reply : Type 0 where
  pub status : ℕ
  pub signature : Option Signature
  pub body : Text

pub record SignableContext : Type 0 where
  pub secret : Text
  pub request_id : Text

-- The clock, and the nonce that is drawn, of one reply.
pub record Sending : Type 0 where
  pub now : ℕ
  pub nonce : Text

abbrev with_retry : Option ℕ → Body → Body
with_retry none body = body
with_retry (some seconds) body = set_field (codes "retry_after") (number seconds) body

-- `stringify` is JSON.stringify
module _ (node : Node) (stringify : Body → Text) (sending : Sending) where
  -- `sendSigned`
  unfoldable pub send_signed : ℕ → Body → SignableContext → Reply
  send_signed status body context =
      let timestamp = sending.now / 1000 in
      let serialised = stringify (
        set_field (codes "request_id") (string context.request_id)
          (set_field (codes "server_time") (number timestamp) body)) in
      record {
        status = status;
        signature = some (record {
          timestamp = timestamp;
          nonce = sending.nonce;
          value = node.hmac_sha256 context.secret (
              canonical_response (record {
                status = status;
                request_id = context.request_id;
                timestamp = timestamp;
                nonce = sending.nonce;
                body_hash = node.sha256 serialised;
              }));
        });
        body = serialised;
      }

  -- `sendSignedOk`
  unfoldable pub send_signed_ok : Body → SignableContext → Reply
  unfolding send_signed
  send_signed_ok data_fields context =
      send_signed 200 (set_fields data_fields ((codes "ok", flag true) ∷ [])) context

  -- `sendSignedError`
  unfoldable pub send_signed_error : ℕ → AgentErrorCode → Text → SignableContext → Option ℕ → Reply
  unfolding send_signed
  send_signed_error status error message context retry_after =
      send_signed status
        (with_retry retry_after (
          (codes "ok", flag false)
          ∷ (codes "error", code error)
          ∷ (codes "message", string message)
          ∷ []))
        context

  -- `sendUnsignableError`
  unfoldable pub send_unsignable_error : ℕ → AgentErrorCode → Text → Option ℕ → Reply
  send_unsignable_error status error message retry_after = record {
    status = status;
    signature = none;
    body = stringify (
        with_retry retry_after (
          (codes "ok", flag false)
          ∷ (codes "error", code error)
          ∷ (codes "message", string message)
          ∷ (codes "server_time", number (sending.now / 1000))
          ∷ []));
  }

-- ===== src/Gateway/Protocol.antt =====
-- agent-gateway/protocol.ts: the texts that are signed, and the codes of errors.
pub mod Canonical
use z_shield.Prelude.{ℕ, List, [], ◌∷◌}
use z_shield.Text.{Text, codes, join, to_upper, decimal}

pub record CanonicalRequestParts : Type 0 where
  pub method : Text
  pub path : Text
  pub query : Text
  pub agent_id : Text
  pub server_id : Text
  pub key_id : Text
  pub timestamp : ℕ
  pub nonce : Text
  pub body_hash : Text

-- the lines of `canonicalRequest`
abbrev pub request_lines : CanonicalRequestParts → List Text
request_lines parts =
    codes "ZSHIELD-AGENT-V1"
    ∷ to_upper parts.method
    ∷ parts.path
    ∷ parts.query
    ∷ parts.agent_id
    ∷ parts.server_id
    ∷ parts.key_id
    ∷ decimal parts.timestamp
    ∷ parts.nonce
    ∷ parts.body_hash
    ∷ []

-- `canonicalRequest`; LF is 10
unfoldable pub canonical_request : CanonicalRequestParts → Text
canonical_request parts = join 10 (request_lines parts)

pub record CanonicalResponseParts : Type 0 where
  pub status : ℕ
  pub request_id : Text
  pub timestamp : ℕ
  pub nonce : Text
  pub body_hash : Text

abbrev pub response_lines : CanonicalResponseParts → List Text
response_lines parts =
    codes "ZSHIELD-PLATFORM-V1"
    ∷ decimal parts.status
    ∷ parts.request_id
    ∷ decimal parts.timestamp
    ∷ parts.nonce
    ∷ parts.body_hash
    ∷ []

-- `canonicalResponse`
unfoldable pub canonical_response : CanonicalResponseParts → Text
canonical_response parts = join 10 (response_lines parts)

-- `AGENT_ERROR`
pub data AgentErrorCode : Type 0 where
  validation auth_clock_skew auth_replay auth_invalid_signature : AgentErrorCode
  auth_credential_revoked protocol_unsupported payload_too_large : AgentErrorCode
  rate_limited internal : AgentErrorCode

-- `MAX_COMMANDS_PER_POLL`
abbrev pub max_commands_per_poll : ℕ
max_commands_per_poll = 25

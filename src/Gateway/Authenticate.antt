-- ===== src/Gateway/Authenticate.antt =====
-- agent-gateway/authenticate.ts: the pipeline that authenticates the requests of agents.
pub mod Soundness
pub mod Replays
use z_shield.Prelude.{
  ℕ, zero, suc, ◌+◌, ◌-◌, ◌*◌, ◌/◌, Bool, true, false, not, ◌&&◌, ◌||◌, Option, none, some, List,
  [], ◌∷◌, ltb, leb, ◌==◌, if◌then◌else◌, length,
}
use z_shield.Text.{Text, codes, text_eq, split}
use z_shield.Crypto.{Bytes, Node, constant_time_equal}
use z_shield.Gateway.Protocol.{
  AgentErrorCode, validation, auth_clock_skew, auth_replay, auth_invalid_signature,
  auth_credential_revoked, rate_limited, internal, canonical_request,
}
use z_shield.Gateway.Credentials.{
  Credentials, Resolution, absent, unreadable, resolved, ResolvedCredential, resolve,
}
use z_shield.Gateway.Replay.{Cache, RateLimitDecision, claim, consume}

-- A header that is absent, that stands once, or that is repeated.
pub data HeaderValue : Type 0 where
  missing repeated : HeaderValue
  single : Text → HeaderValue

-- The headers of `HEADER`, the method and the URL of a request.
pub record AgentRequest : Type 0 where
  pub method : Text
  pub url : Text
  pub agent_id : HeaderValue
  pub server_id : HeaderValue
  pub key_id : HeaderValue
  pub timestamp : HeaderValue
  pub nonce : HeaderValue
  pub signature : HeaderValue
  pub protocol : HeaderValue
  pub agent_version : HeaderValue
  pub request_id : HeaderValue

-- `header(request, name) ?? fallback`; without a value, the tests below refuse the empty text too
abbrev header_or : Text → HeaderValue → Text
header_or fallback (single value) = value
header_or fallback _ = fallback

abbrev in_range : ℕ → ℕ → ℕ → Bool
in_range low high c = leb low c && leb c high

abbrev every : (ℕ → Bool) → Text → Bool
every test [] = true
every test (c ∷ s) = test c && every test s

abbrev is_id_code : ℕ → Bool
is_id_code c =
    in_range b'A' b'Z' c || in_range b'a' b'z' c || in_range b'0' b'9' c || c == b'_' || c == b'-'

abbrev is_hex_code : ℕ → Bool
is_hex_code c = in_range b'0' b'9' c || in_range b'a' b'f' c

-- `ID_PATTERN`, `NONCE_PATTERN` and `SIGNATURE_PATTERN`
unfoldable matches_id : Text → Bool
matches_id s = in_range 1 64 (length s) && every is_id_code s

unfoldable matches_nonce : Text → Bool
matches_nonce s = in_range 16 128 (length s) && every is_hex_code s

unfoldable matches_signature : Text → Bool
matches_signature s = length s == 64 && every is_hex_code s

-- What is thrown.
pub record AgentAuthError : Type 0 where
  pub status : ℕ
  pub code : AgentErrorCode
  pub retry_after : Option ℕ

-- What the headers say, once they have the right form.
pub record SignedHeaders : Type 0 where
  pub agent_id : Text
  pub server_id : Text
  pub key_id : Text
  pub timestamp : ℕ
  pub nonce : Text
  pub signature : Text
  pub protocol_version : ℕ
  pub agent_version : Text
  pub request_id : Text

pub data Parsed : Type 0 where
  malformed : AgentAuthError → Parsed
  parsed : SignedHeaders → Parsed

abbrev refusal : ℕ → AgentErrorCode → AgentAuthError
refusal status code = record { status = status; code = code; retry_after = none }

pub record AgentAuthContext : Type 0 where
  pub credential : ResolvedCredential
  pub agent_id : Text
  pub server_id : Text
  pub key_id : Text
  pub request_id : Text
  pub nonce : Text
  pub timestamp : ℕ
  pub agent_version : Text
  pub protocol_version : ℕ
  pub raw_body : Bytes

-- The value of `authenticate`, an AgentAuthError, or another exception.
pub data Authentication : Type 0 where
  accepted : AgentAuthContext → Authentication
  refused : AgentAuthError → Authentication
  failed : Authentication

-- `url.split('?')[0]`, and what follows the first `?`
abbrev first_part : List Text → Text
first_part [] = []
first_part (p ∷ ps) = p

abbrev pub path_of : Text → Text
path_of url = first_part (split b'?' url)

abbrev pub query_of : Text → Text
query_of [] = []
query_of (c ∷ s) = let rest = query_of s in if c == b'?' then s else rest

-- What the moment gives: the clock in milliseconds, and whether Redis answers each call.
pub record Moment : Type 0 where
  pub now : ℕ
  pub rate_up : Bool
  pub claim_up : Bool

-- `AuthenticatorDeps` and the settings they are made from.
pub record Settings : Type 0 where
  pub master_key : Bytes
  pub clock_skew_seconds : ℕ
  pub nonce_ttl_seconds : ℕ
  pub rate_per_minute : ℕ

abbrev pub skew : ℕ → ℕ → ℕ
skew a b = if ltb a b then b - a else a - b

module _ (node : Node) where
  -- the two numbers, of which the timestamp is positive and the version too
  abbrev with_numbers : SignedHeaders → Option ℕ → Option ℕ → Parsed
  with_numbers h none version = malformed (refusal 401 auth_clock_skew)
  with_numbers h (some zero) version = malformed (refusal 401 auth_clock_skew)
  with_numbers h (some (suc t)) none = malformed (refusal 400 validation)
  with_numbers h (some (suc t)) (some zero) = malformed (refusal 400 validation)
  with_numbers h (some (suc t)) (some (suc v)) =
      parsed (record h { timestamp = suc t; protocol_version = suc v })

  -- Step 1 of `authenticate`.
  unfoldable pub parse_headers : AgentRequest → Parsed
  unfolding matches_id matches_nonce matches_signature
  parse_headers request =
      let agent_id = header_or [] request.agent_id in
      let server_id = header_or [] request.server_id in
      let key_id = header_or [] request.key_id in
      let timestamp = header_or [] request.timestamp in
      let nonce = header_or [] request.nonce in
      let signature = header_or [] request.signature in
      if length agent_id == 0
        || length server_id == 0
        || length key_id == 0
        || length timestamp == 0
        || length nonce == 0
        || length signature == 0
      then malformed (refusal 401 auth_invalid_signature)
      else if not (matches_id agent_id) || not (matches_id server_id) || not (matches_id key_id)
      then malformed (refusal 401 auth_invalid_signature)
      else if not (matches_nonce nonce) || not (matches_signature signature)
      then malformed (refusal 401 auth_invalid_signature)
      else with_numbers
          (record {
            agent_id = agent_id;
            server_id = server_id;
            key_id = key_id;
            timestamp = 0;
            nonce = nonce;
            signature = signature;
            protocol_version = 0;
            agent_version = header_or (codes "unknown") request.agent_version;
            request_id = header_or [] request.request_id;
          })
          (node.number timestamp) (node.number (header_or (codes "0") request.protocol))

  -- `expected`, the signature of the request under the secret
  abbrev pub expected_signature : AgentRequest → SignedHeaders → Bytes → Text → Text
  expected_signature request h raw_body secret = node.hmac_sha256 secret (
      canonical_request (record {
        method = request.method;
        path = path_of request.url;
        query = query_of request.url;
        agent_id = h.agent_id;
        server_id = h.server_id;
        key_id = h.key_id;
        timestamp = h.timestamp;
        nonce = h.nonce;
        body_hash = node.sha256 raw_body;
      }))

  -- Step 5, on the answer of step 4.
  unfoldable pub check_signature :
      AgentRequest → SignedHeaders → Bytes → ResolvedCredential → Option Bool → Authentication
  check_signature request h raw_body credential none =
      refused (record { status = 503; code = internal; retry_after = some 15 })
  check_signature request h raw_body credential (some false) = refused (refusal 401 auth_replay)
  check_signature request h raw_body credential (some true) =
      if not (
        constant_time_equal node h.signature
          (expected_signature request h raw_body credential.secret))
      then refused (refusal 401 auth_invalid_signature)
      else accepted (record {
        credential = credential;
        agent_id = h.agent_id;
        server_id = h.server_id;
        key_id = h.key_id;
        request_id = h.request_id;
        nonce = h.nonce;
        timestamp = h.timestamp;
        agent_version = h.agent_version;
        protocol_version = h.protocol_version;
        raw_body = raw_body;
      })

  module _ (settings : Settings) (moment : Moment) where
    -- Steps 3 to 5 and the test on the server, with the credential that step 2 found.
    unfoldable pub with_credential :
        AgentRequest → SignedHeaders → Bytes → Resolution → Cache → Authentication × Cache
    with_credential request h raw_body absent cache =
        (refused (refusal 401 auth_credential_revoked), cache)
    with_credential request h raw_body unreadable cache = (failed, cache)
    with_credential request h raw_body (resolved credential) cache =
        let (answer, cache_after) =
          claim moment.claim_up settings.nonce_ttl_seconds moment.now h.agent_id h.key_id h.nonce
            cache in
        if not (text_eq credential.server_id h.server_id)
        then (refused (refusal 401 auth_invalid_signature), cache)
        else if ltb settings.clock_skew_seconds (skew (moment.now / 1000) h.timestamp)
        then (refused (refusal 401 auth_clock_skew), cache)
        else (check_signature request h raw_body credential answer, cache_after)

    -- The limit on requests, then steps 2 to 5.
    unfoldable pub limited :
        AgentRequest
        → Bytes
        → SignedHeaders
        → Credentials
        → RateLimitDecision × Cache
        → Authentication × Cache
    limited request raw_body h rows (rate, cache) =
        if not rate.allowed
        then (
          refused (record {
            status = 429;
            code = rate_limited;
            retry_after = some rate.retry_after_seconds;
          }),
          cache,
        )
        else with_credential request h raw_body
            (resolve node settings.master_key h.agent_id h.key_id moment.now rows) cache

    unfoldable pub after_parsing :
        AgentRequest → Bytes → Parsed → Credentials → Cache → Authentication × Cache
    after_parsing request raw_body (malformed e) rows cache = (refused e, cache)
    after_parsing request raw_body (parsed h) rows cache =
        limited request raw_body h rows
          (consume moment.rate_up settings.rate_per_minute moment.now h.agent_id cache)

    -- `AgentAuthenticator.authenticate`
    unfoldable pub authenticate :
        AgentRequest → Bytes → Credentials → Cache → Authentication × Cache
    authenticate request raw_body rows cache =
        after_parsing request raw_body (parse_headers request) rows cache

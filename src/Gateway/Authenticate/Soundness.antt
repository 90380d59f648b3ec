-- ===== src/Gateway/Authenticate/Soundness.antt =====
-- What an accepted request of an agent has passed.
use z_shield.Prelude.{
  ℕ, ◌+◌, ◌*◌, ◌/◌, ◌≤◌, ◌≡◌, refl, sym, ap, ◌∙◌, Bool, true, false, Option, none, some, ◌∷◌, arith,
  Option-cases, inl, inr,
}
use mathlib.Core.Path.{subst}
use z_shield.Text.{Text}
use z_shield.Text.Lines.{text_eq_iff}
use z_shield.Table.{find_where}
use z_shield.Crypto.{Bytes, Node, constant_time_equal}
use z_shield.Gateway.Replay.{Cache, set_nx, nonce_key, claim, consume, lives}
use z_shield.Gateway.Credentials.{
  Credentials, Resolution, resolved, resolve, absent, unreadable, ResolvedCredential,
}
use z_shield.Gateway.Authenticate.{
  AgentRequest, SignedHeaders, AgentAuthContext, accepted, Parsed, malformed, parsed, parse_headers,
  check_signature, with_credential, limited, after_parsing, authenticate, Moment, Settings, skew,
  expected_signature,
}

module _ (node : Node) (settings : Settings) (moment : Moment) where
  -- What `authenticate` has tested of a request with the cache `cache`, when it leaves `cache'`.
  pub record Vouched (request : AgentRequest) (raw_body : Bytes) (rows : Credentials)
      (cache cache' : Cache) (context : AgentAuthContext) : Type 0 where
    pub headers : SignedHeaders
    pub well_formed : parse_headers node request ≡ parsed headers
    -- the context says what the headers say
    pub agent : context.agent_id ≡ headers.agent_id
    pub key : context.key_id ≡ headers.key_id
    pub nonce : context.nonce ≡ headers.nonce
    pub timestamp : context.timestamp ≡ headers.timestamp
    pub body : context.raw_body ≡ raw_body
    -- the credential is a usable one of this agent and key, and is bound to this server
    pub usable :
        resolve node settings.master_key context.agent_id context.key_id moment.now rows
        ≡ resolved context.credential
    pub bound : context.credential.server_id ≡ headers.server_id
    -- the clocks differ by the window at most
    pub in_time : skew (moment.now / 1000) context.timestamp ≤ settings.clock_skew_seconds
    -- the nonce was free, and is taken until its time is over
    pub up : moment.claim_up ≡ true
    pub free :
        find_where
          (lives moment.now (nonce_key context.agent_id context.key_id context.nonce))
          cache.nonces
        ≡ none
    pub taken :
        cache'.nonces
        ≡ record {
          key = nonce_key context.agent_id context.key_id context.nonce;
          value = 1;
          expires_at = moment.now + settings.nonce_ttl_seconds * 1000;
        }
          ∷ cache.nonces
    -- the signature is that of the request under the secret of the credential
    pub signed :
        node.sha256 headers.signature
        ≡ node.sha256 (expected_signature node request headers raw_body context.credential.secret)

  pub consume-nonces :
      (up : Bool) (n now : ℕ) (agent : Text) (cache : Cache)
      → (consume up n now agent cache).1.nonces ≡ cache.nonces
  unfolding consume
  consume-nonces true n now agent cache = refl
  consume-nonces false n now agent cache = refl

  claim-some :
      (up : Bool) (ttl now : ℕ) (agent key nonce : Text) (cache : Cache)
      → (claim up ttl now agent key nonce cache).0 ≡ some true
      → (up ≡ true)
        × (find_where (lives now (nonce_key agent key nonce)) cache.nonces ≡ none)
        × ((claim up ttl now agent key nonce cache).1.nonces
            ≡ record { key = nonce_key agent key nonce; value = 1; expires_at = now + ttl * 1000 }
              ∷ cache.nonces)
  unfolding claim set_nx
  claim-some up ttl now agent key nonce cache h =
      elim (Option-cases (find_where (lives now (nonce_key agent key nonce)) cache.nonces)) [
        | inl e ↦ (ground arith, e, ground arith)
        | inr (r, e) ↦ absurd (ground arith)
      ]

  -- What the context of an accepted request is.
  abbrev context_of : SignedHeaders → Bytes → ResolvedCredential → AgentAuthContext
  context_of h raw_body credential = record {
    credential = credential;
    agent_id = h.agent_id;
    server_id = h.server_id;
    key_id = h.key_id;
    request_id = h.request_id;
    nonce = h.nonce;
    timestamp = h.timestamp;
    agent_version = h.agent_version;
    protocol_version = h.protocol_version;
    raw_body = raw_body;
  }

  check_signature-accepted :
      (request : AgentRequest) (h : SignedHeaders) (raw_body : Bytes)
      (credential : ResolvedCredential) (answer : Option Bool) {context : AgentAuthContext}
      → check_signature node request h raw_body credential answer ≡ accepted context
      → (answer ≡ some true)
        × (node.sha256 h.signature
            ≡ node.sha256 (expected_signature node request h raw_body credential.secret))
        × (context ≡ context_of h raw_body credential)
  unfolding check_signature constant_time_equal
  check_signature-accepted request h raw_body credential none e = absurd (ground arith)
  check_signature-accepted request h raw_body credential (some false) e = absurd (ground arith)
  check_signature-accepted request h raw_body credential (some true) e =
      let same =
        text_eq_iff (node.sha256 h.signature)
          (node.sha256 (expected_signature node request h raw_body credential.secret)) in
      (refl, ground (arith, same), ground arith)

  with_credential-accepted :
      (request : AgentRequest) (h : SignedHeaders) (raw_body : Bytes) (rows : Credentials)
      (resolution : Resolution) (cache cache' : Cache) {context : AgentAuthContext}
      → parse_headers node request ≡ parsed h
      → resolve node settings.master_key h.agent_id h.key_id moment.now rows ≡ resolution
      → with_credential node settings moment request h raw_body resolution cache
        ≡ (accepted context, cache')
      → Vouched request raw_body rows cache cache' context
  unfolding with_credential
  with_credential-accepted request h raw_body rows absent cache cache' p r e = absurd (ground arith)
  with_credential-accepted request h raw_body rows unreadable cache cache' p r e =
      absurd (ground arith)
  with_credential-accepted request h raw_body rows (resolved credential) cache cache' {context} p r
        e =
      let answer =
        claim moment.claim_up settings.nonce_ttl_seconds moment.now h.agent_id h.key_id h.nonce
          cache in
      let server : credential.server_id ≡ h.server_id =
        ground (arith, text_eq_iff credential.server_id h.server_id) in
      let signature =
        check_signature-accepted request h raw_body credential answer.0 {context = context}
          (ground arith) in
      let (up, free, taken) =
        claim-some moment.claim_up settings.nonce_ttl_seconds moment.now h.agent_id h.key_id h.nonce
          cache signature.0 in
      let after : cache'.nonces ≡ answer.1.nonces = ground arith in
      subst (Vouched request raw_body rows cache cache') (sym signature.2) (record {
        headers = h;
        well_formed = p;
        agent = refl;
        key = refl;
        nonce = refl;
        timestamp = refl;
        body = refl;
        usable = r;
        bound = server;
        in_time = ground arith;
        up = up;
        free = free;
        taken = after ∙ taken;
        signed = signature.1;
      })

  limited-accepted :
      (request : AgentRequest) (h : SignedHeaders) (raw_body : Bytes) (rows : Credentials)
      (cache cache' : Cache) {context : AgentAuthContext}
      → parse_headers node request ≡ parsed h
      → limited node settings moment request raw_body h rows
          (consume moment.rate_up settings.rate_per_minute moment.now h.agent_id cache)
        ≡ (accepted context, cache')
      → Vouched request raw_body rows cache cache' context
  unfolding limited
  limited-accepted request h raw_body rows cache cache' {context} p e =
      let rate = consume moment.rate_up settings.rate_per_minute moment.now h.agent_id cache in
      let same : rate.1.nonces ≡ cache.nonces =
        consume-nonces moment.rate_up settings.rate_per_minute moment.now h.agent_id cache in
      let v : Vouched request raw_body rows rate.1 cache' context =
        with_credential-accepted request h raw_body rows
          (resolve node settings.master_key h.agent_id h.key_id moment.now rows) rate.1 cache'
          {context = context} p refl (ground arith) in
      record {
        headers = v.headers;
        well_formed = v.well_formed;
        agent = v.agent;
        key = v.key;
        nonce = v.nonce;
        timestamp = v.timestamp;
        body = v.body;
        usable = v.usable;
        bound = v.bound;
        in_time = v.in_time;
        up = v.up;
        free = ap (find_where _) (sym same) ∙ v.free;
        taken = ground (arith, v.taken);
        signed = v.signed;
      }

  parsed-accepted :
      (request : AgentRequest) (raw_body : Bytes) (rows : Credentials) (cache cache' : Cache)
      {context : AgentAuthContext} (answer : Parsed)
      → parse_headers node request ≡ answer
      → after_parsing node settings moment request raw_body answer rows cache
        ≡ (accepted context, cache')
      → Vouched request raw_body rows cache cache' context
  unfolding after_parsing
  parsed-accepted request raw_body rows cache cache' (malformed e) p h = absurd (ground arith)
  parsed-accepted request raw_body rows cache cache' {context} (parsed headers) p h =
      limited-accepted request headers raw_body rows cache cache' {context = context} p h

  -- An accepted request of an agent has well-formed headers, which its context repeats; a usable
  -- credential of its agent and key, bound to the server that it names; a timestamp in the window;
  -- a nonce that was free and is now taken until its time is over; and the signature, compared by
  -- digest, that the secret of the credential gives on its method, path, query, headers and body.
  pub authenticate-Vouched :
      (request : AgentRequest) (raw_body : Bytes) (rows : Credentials) (cache cache' : Cache)
      (context : AgentAuthContext)
      → authenticate node settings moment request raw_body rows cache ≡ (accepted context, cache')
      → Vouched request raw_body rows cache cache' context
  unfolding authenticate
  authenticate-Vouched request raw_body rows cache cache' context h =
      parsed-accepted request raw_body rows cache cache' {context = context}
        (parse_headers node request) refl h

-- ===== src/Gateway/Authenticate/Replays.antt =====
-- No request of an agent is accepted twice, for as long as its nonce is remembered.
use z_shield.Prelude.{
  ℕ, ◌+◌, ◌*◌, ◌/◌, ◌≤◌, ◌<◌, ◌≡◌, ◌≢◌, ap, ◌∙◌, Bool, true, false, List, [], ◌∷◌, arith, is_some,
}
use z_shield.Text.{Text}
use z_shield.Text.Lines.{text_eq_refl}
use z_shield.Table.{find_where}
use z_shield.Crypto.{Bytes, Node}
use z_shield.Gateway.Replay.{Cache, set_nx, nonce_key, claim, consume, lives}
use z_shield.Gateway.Credentials.{Credentials, Resolution, resolved, absent, unreadable, resolve}
use z_shield.Gateway.Authenticate.{
  AgentRequest, AgentAuthContext, Authentication, accepted, Parsed, malformed, parsed,
  parse_headers, SignedHeaders, with_credential, limited, after_parsing, authenticate, Moment,
  Settings, skew,
}
use z_shield.Gateway.Authenticate.Soundness.{Vouched, authenticate-Vouched, consume-nonces}

-- A nonce is remembered at a time.
abbrev pub remembers : ℕ → Text → Cache → Bool
remembers t key cache = is_some (find_where (lives t key) cache.nonces)

claim-remembers :
    (t : ℕ) (k : Text) (up : Bool) (ttl now : ℕ) (agent key nonce : Text) (cache : Cache)
    → remembers t k cache ≡ true
    → remembers t k (claim up ttl now agent key nonce cache).1 ≡ true
unfolding claim set_nx find_where
claim-remembers t k false ttl now agent key nonce cache h = h
claim-remembers t k true ttl now agent key nonce cache h = ground arith

module _ (node : Node) (settings : Settings) where
  with_credential-remembers :
      (t : ℕ) (k : Text) (moment : Moment) (request : AgentRequest) (h : SignedHeaders)
      (raw_body : Bytes) (resolution : Resolution) (cache : Cache)
      → remembers t k cache ≡ true
      → remembers t k (with_credential node settings moment request h raw_body resolution cache).1
        ≡ true
  unfolding with_credential
  with_credential-remembers t k moment request h raw_body absent cache m = m
  with_credential-remembers t k moment request h raw_body unreadable cache m = m
  with_credential-remembers t k moment request h raw_body (resolved credential) cache m = ground (
    arith,
    claim-remembers t k moment.claim_up settings.nonce_ttl_seconds moment.now h.agent_id h.key_id
        h.nonce cache m,
  )

  authenticate-remembers :
      (t : ℕ) (k : Text) (moment : Moment) (request : AgentRequest) (raw_body : Bytes)
      (rows : Credentials) (cache : Cache) (answer : Parsed)
      → remembers t k cache ≡ true
      → remembers t k (after_parsing node settings moment request raw_body answer rows cache).1
        ≡ true
  unfolding after_parsing limited
  authenticate-remembers t k moment request raw_body rows cache (malformed e) m = m
  authenticate-remembers t k moment request raw_body rows cache (parsed h) m =
      let rate = consume moment.rate_up settings.rate_per_minute moment.now h.agent_id cache in
      let same : rate.1.nonces ≡ cache.nonces =
        consume-nonces node settings moment moment.rate_up settings.rate_per_minute moment.now
          h.agent_id cache in
      let kept : remembers t k rate.1 ≡ true =
        ap (λ nonces. is_some (find_where (lives t k) nonces)) same ∙ m in
      ground (
        arith,
        with_credential-remembers t k moment request h raw_body
            (resolve node settings.master_key h.agent_id h.key_id moment.now rows) rate.1 kept,
      )

  -- A request that arrives, with what the moment and the table give.
  pub record Arrival : Type 0 where
    pub moment : Moment
    pub request : AgentRequest
    pub raw_body : Bytes
    pub rows : Credentials

  abbrev pub answer : Arrival → Cache → Authentication × Cache
  answer a cache = authenticate node settings a.moment a.request a.raw_body a.rows cache

  -- the cache after the requests that arrive, in their order
  abbrev pub serve : List Arrival → Cache → Cache
  serve [] cache = cache
  serve (a ∷ arrivals) cache = serve arrivals (answer a cache).1

  serve-remembers :
      (t : ℕ) (k : Text) (arrivals : List Arrival) (cache : Cache)
      → remembers t k cache ≡ true
      → remembers t k (serve arrivals cache) ≡ true
  unfolding authenticate
  serve-remembers t k [] cache m = m
  serve-remembers t k (a ∷ arrivals) cache m = serve-remembers t k arrivals (answer a cache).1 (
      authenticate-remembers t k a.moment a.request a.raw_body a.rows cache
        (parse_headers node a.request) m)

  -- the second clock has not reached the end of the first one's nonce
  window :
      (t₀ t₁ timestamp limit ttl : ℕ)
      → 2 * limit < ttl
      → skew (t₀ / 1000) timestamp ≤ limit
      → skew (t₁ / 1000) timestamp ≤ limit
      → t₁ < t₀ + ttl * 1000
  window t₀ t₁ timestamp limit ttl long h h' = ground arith

  taken-remembers :
      (first second : Arrival) (cache cache' : Cache) (c c' : AgentAuthContext)
      → Vouched node settings first.moment first.request first.raw_body first.rows cache cache' c
      → second.moment.now < first.moment.now + settings.nonce_ttl_seconds * 1000
      → nonce_key c.agent_id c.key_id c.nonce ≡ nonce_key c'.agent_id c'.key_id c'.nonce
      → remembers second.moment.now (nonce_key c'.agent_id c'.key_id c'.nonce) cache' ≡ true
  unfolding find_where
  taken-remembers first second cache cache' c c' v early same =
      let taken = v.taken in
      let own = text_eq_refl (nonce_key c'.agent_id c'.key_id c'.nonce) in
      ground (arith, taken, own, same)

  -- If nonces are remembered for more than twice the window of the clocks, then of two accepted
  -- requests of one agent, with the same key and nonce, the timestamps differ, whatever requests
  -- arrive between the two and whatever the tables hold then: no signed request is accepted twice.
  pub no_replay :
      (first second : Arrival) (between : List Arrival) (cache cache' cache'' : Cache)
      (c c' : AgentAuthContext)
      → 2 * settings.clock_skew_seconds < settings.nonce_ttl_seconds
      → answer first cache ≡ (accepted c, cache')
      → answer second (serve between cache') ≡ (accepted c', cache'')
      → c.agent_id ≡ c'.agent_id
      → c.key_id ≡ c'.key_id
      → c.nonce ≡ c'.nonce
      → c.timestamp ≢ c'.timestamp
  no_replay first second between cache cache' cache'' c c' long h h' agent key nonce timestamp =
      let v =
        authenticate-Vouched node settings first.moment first.request first.raw_body first.rows
          cache cache' c h in
      let v' =
        authenticate-Vouched node settings second.moment second.request second.raw_body second.rows
          (serve between cache') cache'' c' h' in
      let name : nonce_key c.agent_id c.key_id c.nonce ≡ nonce_key c'.agent_id c'.key_id c'.nonce =
        cc in
      let in_time = v.in_time in
      let in_time' = v'.in_time in
      let early =
        window first.moment.now second.moment.now c'.timestamp settings.clock_skew_seconds
          settings.nonce_ttl_seconds long (ground arith) v'.in_time in
      let kept =
        serve-remembers second.moment.now (nonce_key c'.agent_id c'.key_id c'.nonce) between cache'
          (taken-remembers first second cache cache' c c' v early name) in
      let free = v'.free in absurd (ground arith)

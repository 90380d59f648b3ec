-- ===== src/Gateway/Replay.antt =====
-- agent-gateway/replay.ts: nonces and the counters of requests, in Redis.
use z_shield.Prelude.{
  ℕ, suc, ◌+◌, ◌-◌, ◌*◌, ◌/◌, ◌%◌, Bool, true, false, ◌&&◌, Option, none, some, List, [], ◌∷◌, ltb,
  leb, if◌then◌else◌, is_some,
}
use z_shield.Text.{Text, codes, text_eq, join, decimal}
use z_shield.Table.{find_where, delete_where}

-- A key with its value, until its expiry in milliseconds.
pub record Entry : Type 0 where
  pub key : Text
  pub value : ℕ
  pub expires_at : ℕ

-- The cache of nonces and the counters, which have keys of different prefixes.
pub record Cache : Type 0 where
  pub nonces : List Entry
  pub rates : List Entry

abbrev pub is_key : Text → Entry → Bool
is_key key e = text_eq e.key key

abbrev pub lives : ℕ → Text → Entry → Bool
lives now key e = is_key key e && ltb now e.expires_at

-- SET key 1 EX seconds NX
unfoldable pub set_nx : Text → ℕ → ℕ → List Entry → Bool × List Entry
set_nx key seconds now entries =
    if is_some (find_where (lives now key) entries)
    then (false, entries)
    else (true, record { key = key; value = 1; expires_at = now + seconds * 1000 } ∷ entries)

unfoldable pub nonce_key : Text → Text → Text → Text
nonce_key agent_id key_id nonce =
    join b':' (codes "agent" ∷ codes "nonce" ∷ agent_id ∷ key_id ∷ nonce ∷ [])

-- `ReplayGuard.claim`; `none` is `ReplayCheckUnavailable`, when Redis does not answer
unfoldable pub claim : Bool → ℕ → ℕ → Text → Text → Text → Cache → Option Bool × Cache
claim up ttl_seconds now agent_id key_id nonce cache =
    let (fresh, nonces) = set_nx (nonce_key agent_id key_id nonce) ttl_seconds now cache.nonces in
    if up then (some fresh, record cache { nonces = nonces }) else (none, cache)

pub record RateLimitDecision : Type 0 where
  pub allowed : Bool
  pub remaining : ℕ
  pub retry_after_seconds : ℕ

-- the value of a live counter
abbrev counted : Option Entry → ℕ
counted none = 0
counted (some e) = e.value

rate_key : Text → ℕ → Text
rate_key agent_id now =
    join b':' (codes "agent" ∷ codes "rate" ∷ agent_id ∷ decimal (now / 60000) ∷ [])

-- `AgentRateLimiter.consume`: INCR and EXPIRE 120; without Redis every request is allowed
unfoldable pub consume : Bool → ℕ → ℕ → Text → Cache → RateLimitDecision × Cache
unfolding rate_key
consume up per_minute now agent_id cache =
    let key = rate_key agent_id now in
    let count = suc (counted (find_where (lives now key) cache.rates)) in
    if up
    then (
      record {
        allowed = leb count per_minute;
        remaining = per_minute - count;
        retry_after_seconds = 60 - now % 60000 / 1000;
      },
      record cache {
        rates =
            record { key = key; value = count; expires_at = now + 120000 }
            ∷ delete_where (is_key key) cache.rates;
      },
    )
    else (record { allowed = true; remaining = per_minute; retry_after_seconds = 0 }, cache)

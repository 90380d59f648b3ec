-- ===== src/Gateway/Protocol/Canonical.antt =====
-- A signed text stands for one request, or for one response, and never for both.
use z_shield.Prelude.{◌≡◌, arith, All}
use z_shield.Text.{to_upper}
use z_shield.Text.Lines.{Lacks, join_injective}
use z_shield.Text.Decimal.{decimal_injective, decimal-Lacks}
use z_shield.Gateway.Protocol.{
  CanonicalRequestParts, request_lines, canonical_request, CanonicalResponseParts,
}

-- No field holds a line feed.
pub record IsLineFree (parts : CanonicalRequestParts) : Type 0 where
  pub method : Lacks 10 (to_upper parts.method)
  pub path : Lacks 10 parts.path
  pub query : Lacks 10 parts.query
  pub agent_id : Lacks 10 parts.agent_id
  pub server_id : Lacks 10 parts.server_id
  pub key_id : Lacks 10 parts.key_id
  pub nonce : Lacks 10 parts.nonce
  pub body_hash : Lacks 10 parts.body_hash

pub record IsResponseLineFree (parts : CanonicalResponseParts) : Type 0 where
  pub request_id : Lacks 10 parts.request_id
  pub nonce : Lacks 10 parts.nonce
  pub body_hash : Lacks 10 parts.body_hash

lines-Lacks : (p : CanonicalRequestParts) → IsLineFree p → All (Lacks 10) (request_lines p)
lines-Lacks p h = (
  omega arith,
  (
    h.method,
    (
      h.path,
      (
        h.query,
        (
          h.agent_id,
          (
            h.server_id,
            (h.key_id, (decimal-Lacks 10 p.timestamp (omega arith), (h.nonce, (h.body_hash, tt)))),
          ),
        ),
      ),
    ),
  ),
)

-- Two requests with one signed text have the same fields, up to the case of the method, if no field
-- holds a line feed.
pub canonical_request_injective :
    (p q : CanonicalRequestParts)
    → IsLineFree p
    → IsLineFree q
    → canonical_request p ≡ canonical_request q
    → (to_upper p.method ≡ to_upper q.method)
      × (p.path ≡ q.path)
      × (p.query ≡ q.query)
      × (p.agent_id ≡ q.agent_id)
      × (p.server_id ≡ q.server_id)
      × (p.key_id ≡ q.key_id)
      × (p.timestamp ≡ q.timestamp)
      × (p.nonce ≡ q.nonce)
      × (p.body_hash ≡ q.body_hash)
unfolding canonical_request
canonical_request_injective p q h k e =
    let same = join_injective 10 _ _ _ _ (lines-Lacks p h) (lines-Lacks q k) e in
    (cc, cc, cc, cc, cc, cc, decimal_injective p.timestamp q.timestamp (cc), cc, cc)

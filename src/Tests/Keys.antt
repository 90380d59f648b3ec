-- ===== src/Tests/Keys.antt =====
-- Keys, rotations and signed texts of one agent.
use z_shield.Prelude.{ℕ, zero, suc, ◌≡◌, refl, none, [], ◌∷◌, ◌++◌, arith}
use z_shield.Text.{Text, codes, to_upper}
use z_shield.Crypto.{Bytes}
use z_shield.Gateway.Protocol.{CanonicalRequestParts, CanonicalResponseParts}
use z_shield.Gateway.Protocol.Canonical.{IsLineFree, canonical_request_injective}
use z_shield.Gateway.Credentials.{ApiCredential, Credentials, active, Draw, new_row}
use z_shield.Gateway.Credentials.Lifecycle.{rotation_input}
use z_shield.Tests.Runtime.{toy}
use z_shield.Tests.Accounts.{org}

abbrev parts : CanonicalRequestParts
parts = record {
  method = codes "POST";
  path = codes "/x";
  query = [];
  agent_id = codes "agt";
  server_id = codes "srv";
  key_id = codes "key";
  timestamp = 7;
  nonce = codes "00ff";
  body_hash = codes "ab";
}

abbrev response : CanonicalResponseParts
response = record {
  status = 200;
  request_id = codes "req";
  timestamp = 7;
  nonce = codes "00ff";
  body_hash = codes "ab";
}

parts-IsLineFree : IsLineFree parts
unfolding to_upper
parts-IsLineFree = record {
  method = ground arith;
  path = ground arith;
  query = tt;
  agent_id = ground arith;
  server_id = ground arith;
  key_id = ground arith;
  nonce = ground arith;
  body_hash = ground arith;
}

canonical_request_injective_example :
    (to_upper parts.method ≡ to_upper parts.method)
    × (parts.path ≡ parts.path)
    × (parts.query ≡ parts.query)
    × (parts.agent_id ≡ parts.agent_id)
    × (parts.server_id ≡ parts.server_id)
    × (parts.key_id ≡ parts.key_id)
    × (parts.timestamp ≡ parts.timestamp)
    × (parts.nonce ≡ parts.nonce)
    × (parts.body_hash ≡ parts.body_hash)
canonical_request_injective_example =
    canonical_request_injective parts parts parts-IsLineFree parts-IsLineFree refl

-- `n` times the same code unit
abbrev pub times : ℕ → ℕ → Text
times zero c = []
times (suc n) c = c ∷ times n c

abbrev pub master_key : Bytes
master_key = times 32 1

abbrev iv : Bytes
iv = times 12 9

-- A secret as the toy cipher stores it.
abbrev sealed : Text → Bytes
sealed secret = (1 ∷ []) ++ (iv ++ (times 16 0 ++ secret))

abbrev pub credential : ApiCredential
credential = record {
  key_id = codes "key_1";
  organization_id = org;
  server_id = codes "srv_1";
  agent_id = codes "agt_1";
  secret_encrypted = sealed (codes "first");
  secret_hint = codes "irst";
  status = active;
  supersedes_key_id = none;
  created_by = none;
  last_seen_at = none;
  expires_at = none;
  revoked_at = none;
  revoked_by = none;
  revoke_reason = none;
}

abbrev pub keys : Credentials
keys = credential ∷ []

abbrev draw : Draw
draw = record { key_id = codes "key_2"; secret_bytes = codes "second"; iv = iv }

abbrev pending_row : ApiCredential
pending_row = new_row toy draw (rotation_input credential) (sealed (codes "second"))

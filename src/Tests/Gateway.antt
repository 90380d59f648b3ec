-- ===== src/Tests/Gateway.antt =====
-- Signed requests of one agent.
use z_shield.Prelude.{ℕ, ◌+◌, ◌%◌, ◌≡◌, ◌≢◌, refl, true, [], ◌∷◌, ◌++◌, arith}
use z_shield.Text.{Text, codes, text_eq, decimal, join, split, to_upper, take, drop}
use z_shield.Table.{find_where, delete_where}
use z_shield.Crypto.{Node, decrypt_secret, constant_time_equal}
use z_shield.Gateway.Protocol.{canonical_request}
use z_shield.Gateway.Replay.{Cache, claim, consume, set_nx, nonce_key}
use z_shield.Gateway.Credentials.{resolve, read_row}
use z_shield.Gateway.Credentials.Lifecycle.{current_of}
use z_shield.Gateway.Authenticate.{
  AgentRequest, missing, single, AgentAuthContext, Authentication, accepted, Settings,
  parse_headers, check_signature, with_credential, limited, after_parsing, authenticate,
}
use z_shield.Gateway.Authenticate.Soundness.{Vouched, authenticate-Vouched}
use z_shield.Gateway.Authenticate.Replays.{Arrival, answer, serve, no_replay}
use z_shield.Tests.Runtime.{toy}
use z_shield.Tests.Keys.{times, master_key, credential, keys}

abbrev total : Text → ℕ
total [] = 0
total (c ∷ s) = c + total s

-- A runtime whose signatures have the form of the protocol's.
abbrev pub signing : Node
signing = record toy {
  hmac_sha256 = λ key message. (b'0' + total (key ++ message) % 10) ∷ times 63 b'a';
}

abbrev pub agent_request : AgentRequest
agent_request = record {
  method = codes "post";
  url = codes "/v1/heartbeat?full=1";
  agent_id = single (codes "agt_1");
  server_id = single (codes "srv_1");
  key_id = single (codes "key_1");
  timestamp = single (codes "1300");
  nonce = single (times 16 b'f');
  signature = single (b'1' ∷ times 63 b'a');
  protocol = single (codes "1");
  agent_version = missing;
  request_id = missing;
}

-- the nonces are remembered for twice the window, which the settings allow, or for longer
abbrev pub settings : ℕ → Settings
settings ttl = record {
  master_key = master_key;
  clock_skew_seconds = 300;
  nonce_ttl_seconds = ttl;
  rate_per_minute = 60;
}

abbrev pub at : ℕ → Arrival signing (settings 900)
at now = record {
  moment = record { now = now; rate_up = true; claim_up = true };
  request = agent_request;
  raw_body = codes "{}";
  rows = keys;
}

abbrev pub empty_cache : Cache
empty_cache = record { nonces = []; rates = [] }

abbrev first_run : Authentication × Cache
first_run = answer signing (settings 900) (at 1000000) empty_cache

-- the context of the request, and the cache with its nonce
abbrev first_context : AgentAuthContext
first_context = record {
  credential = current_of credential (codes "first");
  agent_id = codes "agt_1";
  server_id = codes "srv_1";
  key_id = codes "key_1";
  request_id = [];
  nonce = times 16 b'f';
  timestamp = 1300;
  agent_version = codes "unknown";
  protocol_version = 1;
  raw_body = codes "{}";
}

accepted_once : first_run ≡ (accepted first_context, first_run.1)
unfolding authenticate parse_headers after_parsing limited with_credential consume claim set_nx
    check_signature constant_time_equal find_where text_eq resolve read_row decrypt_secret take drop
    canonical_request to_upper split nonce_key join decimal delete_where
accepted_once = refl

authenticate-Vouched_example :
    Vouched signing
      (settings 900)
      (at 1000000).moment
      agent_request
      (codes "{}")
      keys
      empty_cache
      first_run.1
      first_context
authenticate-Vouched_example =
    authenticate-Vouched signing (settings 900) (at 1000000).moment agent_request (codes "{}") keys
      empty_cache first_run.1 first_context accepted_once

-- With a time to live of twice the window, the last second accepts the same request once more.
abbrev short : ℕ → Arrival signing (settings 600)
short now = record {
  moment = record { now = now; rate_up = true; claim_up = true };
  request = agent_request;
  raw_body = codes "{}";
  rows = keys;
}

abbrev after_first : Cache
after_first = (answer signing (settings 600) (short 1000000) empty_cache).1

replayed_at_the_end :
    (answer signing (settings 600) (short 1000000) empty_cache).0 ≡ accepted first_context
    × ((answer signing (settings 600) (short 1600000) after_first).0 ≡ accepted first_context)
unfolding authenticate parse_headers after_parsing limited with_credential consume claim set_nx
    check_signature constant_time_equal find_where text_eq resolve read_row decrypt_secret take drop
    canonical_request to_upper split nonce_key join decimal delete_where
replayed_at_the_end = (refl, refl)

-- The agent draws the same nonce again, when it is no longer remembered.
abbrev later : Arrival signing (settings 900)
later = record {
  moment = record { now = 2000000; rate_up = true; claim_up = true };
  request = record agent_request {
    timestamp = single (codes "2000");
    signature = single (b'9' ∷ times 63 b'a');
  };
  raw_body = codes "{}";
  rows = keys;
}

abbrev second_run : Authentication × Cache
second_run = answer signing (settings 900) later (serve signing (settings 900) [] first_run.1)

abbrev second_context : AgentAuthContext
second_context = record first_context { timestamp = 2000 }

accepted_later : second_run ≡ (accepted second_context, second_run.1)
unfolding authenticate parse_headers after_parsing limited with_credential consume claim set_nx
    check_signature constant_time_equal find_where text_eq resolve read_row decrypt_secret take drop
    canonical_request to_upper split nonce_key join decimal delete_where
accepted_later = refl

no_replay_example : ◌≢◌ {A = ℕ} 1300 2000
no_replay_example =
    no_replay signing (settings 900) (at 1000000) later [] empty_cache first_run.1 second_run.1
      first_context second_context (omega arith) accepted_once accepted_later refl refl refl

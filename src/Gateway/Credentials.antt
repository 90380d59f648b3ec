-- ===== src/Gateway/Credentials.antt =====
-- agent-gateway/credentials.ts: the keys of agents, their lookup and their rotation.
pub mod Rotation
pub mod Lifecycle
use z_shield.Prelude.{
  ℕ, ◌-◌, Bool, true, false, not, ◌&&◌, ◌||◌, Option, none, some, List, [], ◌∷◌, ◌++◌, ltb, leb,
  if◌then◌else◌, is_some, length,
}
use z_shield.Text.{Text, codes, text_eq, take, drop}
use z_shield.Table.{update_where, find_where, exists_where}
use z_shield.Crypto.{Bytes, Node, encrypt_secret, decrypt_secret, new_agent_secret}
use z_shield.Tenant.{Result, ok, err, violation, unavailable, with_tenant}

pub data CredentialStatus : Type 0 where
  active pending_rotation superseded revoked : CredentialStatus

abbrev pub is_active : CredentialStatus → Bool
is_active active = true
is_active _ = false

abbrev pub is_pending : CredentialStatus → Bool
is_pending pending_rotation = true
is_pending _ = false

-- status IN ('ACTIVE', 'PENDING_ROTATION')
abbrev pub is_usable : CredentialStatus → Bool
is_usable s = is_active s || is_pending s

abbrev is_revoked : CredentialStatus → Bool
is_revoked revoked = true
is_revoked _ = false

-- a row of api_credentials
pub record ApiCredential : Type 0 where
  pub key_id : Text
  pub organization_id : Text
  pub server_id : Text
  pub agent_id : Text
  pub secret_encrypted : Bytes
  pub secret_hint : Text
  pub status : CredentialStatus
  pub supersedes_key_id : Option Text
  pub created_by : Option Text
  pub last_seen_at : Option ℕ
  pub expires_at : Option ℕ
  pub revoked_at : Option ℕ
  pub revoked_by : Option Text
  pub revoke_reason : Option Text

abbrev pub Credentials : Type 0
Credentials = List ApiCredential

pub record ResolvedCredential : Type 0 where
  pub key_id : Text
  pub organization_id : Text
  pub server_id : Text
  pub agent_id : Text
  pub secret : Text
  pub status : CredentialStatus

-- `null`, the exception of a row that cannot be decrypted, or a credential
pub data Resolution : Type 0 where
  absent unreadable : Resolution
  resolved : ResolvedCredential → Resolution

abbrev pub is_key_of : Text → Text → ApiCredential → Bool
is_key_of organization_id key_id c =
    text_eq c.organization_id organization_id && text_eq c.key_id key_id

abbrev pub is_signing_key : Text → Text → ApiCredential → Bool
is_signing_key agent_id key_id c =
    text_eq c.agent_id agent_id && (text_eq c.key_id key_id && is_usable c.status)

abbrev pub expired : ℕ → Option ℕ → Bool
expired now none = false
expired now (some at) = leb at now

module _ (node : Node) (key : Bytes) where
  abbrev opened : ApiCredential → Option Text → Resolution
  opened c none = unreadable
  opened c (some secret) = resolved (record {
    key_id = c.key_id;
    organization_id = c.organization_id;
    server_id = c.server_id;
    agent_id = c.agent_id;
    secret = secret;
    status = c.status;
  })

  -- `resolve`, on the row that the query found
  unfoldable pub read_row : ℕ → Option ApiCredential → Resolution
  read_row now none = absent
  read_row now (some c) =
      if expired now c.expires_at
      then absent
      else opened c (decrypt_secret node c.secret_encrypted key)

  -- `resolve`
  unfoldable pub resolve : Text → Text → ℕ → Credentials → Resolution
  resolve agent_id key_id now rows = read_row now (find_where (is_signing_key agent_id key_id) rows)

-- The index api_credentials_one_active_idx: one ACTIVE key for a server.
abbrev pub holds_active : Text → Text → ApiCredential → Bool
holds_active organization_id server_id c =
    text_eq c.organization_id organization_id
    && (text_eq c.server_id server_id && is_active c.status)

-- The INSERT: the key is new, and the index holds.
unfoldable pub insert : ApiCredential → Credentials → Result (Unit {0}) × Credentials
insert row rows =
    if exists_where (λ c. text_eq c.key_id row.key_id) rows
      || (is_active row.status
          && exists_where (holds_active row.organization_id row.server_id) rows)
    then (err violation, rows)
    else (ok tt, rows ++ (row ∷ []))

abbrev returned : Text → Text → Result (Unit {0}) × Credentials → Result (Text × Text) × Credentials
returned key_id secret (ok _, rows) = (ok (key_id, secret), rows)
returned key_id secret (err e, rows) = (err e, rows)

pub record IssueInput : Type 0 where
  pub organization_id : Text
  pub server_id : Text
  pub agent_id : Text
  pub created_by : Option Text
  pub supersedes_key_id : Option Text
  pub status : CredentialStatus

-- The random values of one `issue`.
pub record Draw : Type 0 where
  pub key_id : Text
  pub secret_bytes : Bytes
  pub iv : Bytes

abbrev pub secret_of : Node → Draw → Text
secret_of node draw = new_agent_secret node draw.secret_bytes

abbrev pub new_row : Node → Draw → IssueInput → Bytes → ApiCredential
new_row node draw input sealed = record {
  key_id = draw.key_id;
  organization_id = input.organization_id;
  server_id = input.server_id;
  agent_id = input.agent_id;
  secret_encrypted = sealed;
  secret_hint = drop (length (secret_of node draw) - 4) (secret_of node draw);
  status = input.status;
  supersedes_key_id = input.supersedes_key_id;
  created_by = input.created_by;
  last_seen_at = none;
  expires_at = none;
  revoked_at = none;
  revoked_by = none;
  revoke_reason = none;
}

module _ (node : Node) (key : Bytes) where
  abbrev insert_sealed :
      Draw → IssueInput → Option Bytes → Credentials → Result (Unit {0}) × Credentials
  insert_sealed draw input none rows = (err unavailable, rows)
  insert_sealed draw input (some sealed) rows = insert (new_row node draw input sealed) rows

  -- `issue`; an exception of the encryption ends the transaction
  unfoldable pub issue : Draw → IssueInput → Credentials → Result (Text × Text) × Credentials
  unfolding with_tenant
  issue draw input rows = returned draw.key_id (secret_of node draw) (
      with_tenant input.organization_id
        (insert_sealed draw input (encrypt_secret node (secret_of node draw) key draw.iv)) rows)

  -- `beginRotation`
  unfoldable pub begin_rotation :
      Draw → ResolvedCredential → Credentials → Result (Text × Text) × Credentials
  unfolding issue
  begin_rotation draw current rows =
      issue draw
        (record {
          organization_id = current.organization_id;
          server_id = current.server_id;
          agent_id = current.agent_id;
          created_by = none;
          supersedes_key_id = some current.key_id;
          status = pending_rotation;
        })
        rows

-- `touch`
unfoldable pub touch : Text → Text → ℕ → Credentials → Result (Unit {0}) × Credentials
touch organization_id key_id now rows =
    with_tenant organization_id
      (λ r. (
        ok tt,
        update_where (is_key_of organization_id key_id) (λ c. record c { last_seen_at = some now })
            r,
      ))
      rows

-- The first UPDATE of `commitRotation`.
abbrev retire : Text → Option Text → ℕ → Credentials → Credentials
retire organization_id none now rows = rows
retire organization_id (some old) now rows =
    update_where (is_key_of organization_id old)
      (λ c. record c { status = superseded; revoked_at = some now }) rows

-- The second UPDATE, which the index refuses while another key of the server is ACTIVE.
abbrev activate : ApiCredential → Credentials → Result (Unit {0}) × Credentials
activate pending rows =
    if exists_where
      (λ c.
        holds_active pending.organization_id pending.server_id c
        && not (text_eq c.key_id pending.key_id))
      rows
    then (err violation, rows)
    else (
      ok tt,
      update_where (is_key_of pending.organization_id pending.key_id)
          (λ c. record c { status = active }) rows,
    )

abbrev promote : ℕ → Option ApiCredential → Credentials → Result (Unit {0}) × Credentials
promote now none rows = (ok tt, rows)
promote now (some pending) rows =
    activate pending (retire pending.organization_id pending.supersedes_key_id now rows)

unfoldable pub commit_body : Text → Text → ℕ → Credentials → Result (Unit {0}) × Credentials
commit_body organization_id new_key_id now rows =
    promote now
      (find_where (λ c. is_key_of organization_id new_key_id c && is_pending c.status) rows) rows

-- `commitRotation`
unfoldable pub commit_rotation : Text → Text → ℕ → Credentials → Result (Unit {0}) × Credentials
commit_rotation organization_id new_key_id now rows =
    with_tenant organization_id (commit_body organization_id new_key_id now) rows

-- `revoke`
unfoldable pub revoke :
    Text → Text → Option Text → Text → ℕ → Credentials → Result (Unit {0}) × Credentials
revoke organization_id key_id revoked_by reason now rows =
    with_tenant organization_id
      (λ r. (
        ok tt,
        update_where (λ c. is_key_of organization_id key_id c && not (is_revoked c.status))
            (λ c. record c {
              status = revoked;
              revoked_at = some now;
              revoked_by = revoked_by;
              revoke_reason = some (take 400 reason);
            })
            r,
      ))
      rows

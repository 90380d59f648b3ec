-- ===== src/Gateway/Credentials/Lifecycle.antt =====
-- A whole rotation: `beginRotation`, then `commitRotation` after a handshake with the new key.
use z_shield.Prelude.{◌≡◌, false, none, some, All, ◌⊎◌}
use z_shield.Text.{Text}
use z_shield.Table.Rows.{row_of}
use z_shield.Gateway.Credentials.{
  pending_rotation, ApiCredential, Credentials, ResolvedCredential, holds_active, IssueInput,
}
use z_shield.Gateway.Credentials.Rotation.{UniqueKeys}

-- The rows of the credentials when a rotation may begin: keys are unique, and `old` is the only
-- ACTIVE key of its server.
pub record IsSettled (old : ApiCredential) (rows : Credentials) : Type 0 where
  pub unique : UniqueKeys rows
  pub old_row : row_of (λ c. c.key_id) old.key_id rows ≡ some old
  pub one_active :
      All
        (λ c. (holds_active old.organization_id old.server_id c ≡ false) ⊎ (c.key_id ≡ old.key_id))
        rows

abbrev pub rotation_input : ApiCredential → IssueInput
rotation_input old = record {
  organization_id = old.organization_id;
  server_id = old.server_id;
  agent_id = old.agent_id;
  created_by = none;
  supersedes_key_id = some old.key_id;
  status = pending_rotation;
}

-- The credential with which the agent signs before the rotation.
abbrev pub current_of : ApiCredential → Text → ResolvedCredential
current_of old secret = record {
  key_id = old.key_id;
  organization_id = old.organization_id;
  server_id = old.server_id;
  agent_id = old.agent_id;
  secret = secret;
  status = old.status;
}

-- ===== src/Gateway/Credentials/Rotation.antt =====
-- The rotation of an agent's key: two keys while it is under way, one after it.
use z_shield.Prelude.{
  ℕ, ◌≡◌, ◌≢◌, refl, ◌∙◌, true, false, not, ◌&&◌, some, [], ◌∷◌, ◌++◌, arith, All, Option-cases,
  inl, inr, ◌⊎◌,
}
use z_shield.Text.{Text, codes, text_eq}
use z_shield.Text.Lines.{text_eq_iff, text_eq_refl}
use z_shield.Table.{update_where, exists_where, All-updated}
use z_shield.Table.Keys.{Unique, Unique-update_where}
use z_shield.Table.Rows.{exists_where-none, row_of, row_of-update, find_where-row_of}
use z_shield.Crypto.{Bytes, Node, encrypt_secret}
use z_shield.Tenant.{ok, with_tenant, is_id, settle}
use z_shield.Gateway.Credentials.{
  active, pending_rotation, superseded, is_pending, ApiCredential, Credentials, is_key_of,
  holds_active, insert, IssueInput, Draw, secret_of, new_row, issue, commit_body, commit_rotation,
}

abbrev pub UniqueKeys : Credentials → Type 0
UniqueKeys rows = Unique (λ c. c.key_id) rows

module _ (node : Node) (key : Bytes) where
  -- The row that an accepted `issue` appends.
  pub record Issued (draw : Draw) (input : IssueInput) (rows rows' : Credentials) : Type 0 where
    pub framed : is_id (codes "org_") input.organization_id ≡ true
    pub sealed : Bytes
    pub encrypted : encrypt_secret node (secret_of node draw) key draw.iv ≡ some sealed
    pub fresh : exists_where (λ c. text_eq c.key_id draw.key_id) rows ≡ false
    pub appended : rows' ≡ rows ++ (new_row node draw input sealed ∷ [])

  pub issue-Issued :
      (draw : Draw) (input : IssueInput) (rows rows' : Credentials) {out : Text × Text}
      → issue node key draw input rows ≡ (ok out, rows')
      → Issued draw input rows rows'
  unfolding issue with_tenant settle insert
  issue-Issued draw input rows rows' h =
      elim (Option-cases (encrypt_secret node (secret_of node draw) key draw.iv)) [
        | inl e ↦ absurd (ground arith)
        | inr (sealed, e) ↦ record {
          framed = ground arith;
          sealed = sealed;
          encrypted = e;
          fresh = ground arith;
          appended = ground arith;
        }
      ]

-- The state of the two keys of a rotation that has begun: the old one is the only ACTIVE key of the
-- server, the new one is pending and supersedes it.
pub record IsPending (organization_id server_id : Text) (old new : ApiCredential)
    (rows : Credentials) : Type 0 where
  pub unique : UniqueKeys rows
  pub old_row : row_of (λ c. c.key_id) old.key_id rows ≡ some old
  pub new_row : row_of (λ c. c.key_id) new.key_id rows ≡ some new
  pub different : new.key_id ≢ old.key_id
  pub old_organization : old.organization_id ≡ organization_id
  pub new_organization : new.organization_id ≡ organization_id
  pub new_server : new.server_id ≡ server_id
  pub pending : new.status ≡ pending_rotation
  pub supersedes : new.supersedes_key_id ≡ some old.key_id
  pub one_active :
      All (λ c. (holds_active organization_id server_id c ≡ false) ⊎ (c.key_id ≡ old.key_id)) rows

module _ (organization_id server_id : Text) (old new : ApiCredential) (rows : Credentials) (now : ℕ)
    (p : IsPending organization_id server_id old new rows) where
  abbrev retired : ApiCredential → ApiCredential
  retired c = record c { status = superseded; revoked_at = some now }

  abbrev promoted : ApiCredential → ApiCredential
  promoted c = record c { status = active }

  -- the rows after the first UPDATE, and after the second
  abbrev rows_retired : Credentials
  rows_retired = update_where (is_key_of organization_id old.key_id) retired rows

  abbrev pub rows_promoted : Credentials
  rows_promoted = update_where (is_key_of organization_id new.key_id) promoted rows_retired

  no_other_active :
      exists_where
        (λ c. holds_active organization_id server_id c && not (text_eq c.key_id new.key_id))
        rows_retired
      ≡ false
  no_other_active = exists_where-none _ rows_retired (
      All-updated _ _ (is_key_of organization_id old.key_id) retired rows p.one_active
        (λ c h. ground (arith, text_eq_iff c.key_id old.key_id)))

  pub commit_rotation_lem :
      is_id (codes "org_") organization_id ≡ true
      → commit_rotation organization_id new.key_id now rows ≡ (ok tt, rows_promoted)
  unfolding commit_rotation with_tenant commit_body settle
  commit_rotation_lem framed =
      let found =
        find_where-row_of (λ c. c.key_id) new.key_id
          (λ c. is_key_of organization_id new.key_id c && is_pending c.status) rows p.new_row
          (λ c h. ground (arith, text_eq_iff c.key_id new.key_id))
          (rw (p.new_organization, text_eq_refl, text_eq_refl, p.pending)) in
      rw (framed, found, p.supersedes, p.new_organization, p.new_server, no_other_active)

  pub new_promoted : row_of (λ c. c.key_id) new.key_id rows_promoted ≡ some (promoted new)
  new_promoted =
      let first =
        row_of-update (λ c. c.key_id) new.key_id (is_key_of organization_id old.key_id) retired rows
          {r = new} (λ c. refl) p.new_row in
      let kept : row_of (λ c. c.key_id) new.key_id rows_retired ≡ some new =
        ground (arith, first, text_eq_iff new.key_id old.key_id, p.different) in
      row_of-update (λ c. c.key_id) new.key_id (is_key_of organization_id new.key_id) promoted
        rows_retired {r = new} (λ c. refl) kept
      ∙ rw (p.new_organization, text_eq_refl, text_eq_refl)

  pub old_retired : row_of (λ c. c.key_id) old.key_id rows_promoted ≡ some (retired old)
  old_retired =
      let first =
        row_of-update (λ c. c.key_id) old.key_id (is_key_of organization_id old.key_id) retired rows
          {r = old} (λ c. refl) p.old_row in
      let gone : row_of (λ c. c.key_id) old.key_id rows_retired ≡ some (retired old) =
        first ∙ rw (p.old_organization, text_eq_refl, text_eq_refl) in
      let second =
        row_of-update (λ c. c.key_id) old.key_id (is_key_of organization_id new.key_id) promoted
          rows_retired {r = retired old} (λ c. refl) gone in
      ground (arith, second, text_eq_iff old.key_id new.key_id, p.different)

  pub UniqueKeys-promoted : UniqueKeys rows_promoted
  UniqueKeys-promoted =
      Unique-update_where (λ c. c.key_id) _ promoted rows_retired (λ c. refl)
        (Unique-update_where (λ c. c.key_id) _ retired rows (λ c. refl) p.unique)

-- ===== src/Crypto/Envelope.antt =====
-- `encryptSecret` against `decryptSecret` of lib/crypto.ts.
use z_shield.Prelude.{◌≡◌, ◌<◌, refl, true, some, [], ◌∷◌, ◌++◌, arith, length, All}
use mathlib.Core.List.{append_assoc}
use z_shield.Text.{Text, drop}
use z_shield.Text.Slices.{take-append, drop-append, length-append}
use z_shield.Crypto.{
  Bytes, Node, NodeLaws, encrypt_secret, decrypt_secret, open_envelope, is_well_formed, pairs_from,
  new_agent_secret,
}

module _ (node : Node) (laws : NodeLaws node) where
  open_envelope-sealed :
      (key iv tag ct : Bytes)
      → length iv ≡ 12
      → length tag ≡ 16
      → open_envelope node (1 ∷ (iv ++ (tag ++ ct))) key ≡ node.gcm_open key iv tag ct
  unfolding open_envelope
  open_envelope-sealed key iv tag ct hiv htag =
      let rest : Bytes = iv ++ (tag ++ ct) in
      let last : drop 28 rest ≡ ct =
        rw (← append_assoc) (drop-append 28 (iv ++ tag) ct (omega (arith, length-append iv tag))) in
      rw (
        take-append 12 iv (tag ++ ct) hiv,
        drop-append 12 iv (tag ++ ct) hiv,
        take-append 16 tag ct htag,
        last,
      )

  -- A text without a surrogate that stands alone, encrypted with an IV of twelve bytes, is decrypted
  -- again under the same key.
  pub decrypt-encrypt :
      (plaintext : Text) (key iv : Bytes) {envelope : Bytes}
      → is_well_formed plaintext ≡ true
      → length iv ≡ 12
      → encrypt_secret node plaintext key iv ≡ some envelope
      → decrypt_secret node envelope key ≡ some plaintext
  unfolding encrypt_secret decrypt_secret
  decrypt-encrypt plaintext key iv {envelope} formed hiv h =
      let ct : Bytes = (node.gcm_seal key iv (node.utf8 plaintext)).0 in
      let tag : Bytes = (node.gcm_seal key iv (node.utf8 plaintext)).1 in
      let tagged = laws.length-tag key iv (node.utf8 plaintext) in
      let same : Path Bytes (1 ∷ (iv ++ (tag ++ ct))) envelope = ground arith in
      let opened = open_envelope-sealed key iv tag ct hiv tagged in
      let back = laws.open-seal key iv (node.utf8 plaintext) in
      let text = laws.from_utf8-utf8 plaintext formed in
      rw (← same) (ground (arith, length-append iv (tag ++ ct), length-append tag ct))

  ascii-is_well_formed : (s : Text) → All (λ c. c < 128) s → is_well_formed s ≡ true
  unfolding pairs_from
  ascii-is_well_formed [] h = refl
  ascii-is_well_formed (c ∷ s) h = ground (arith, h.0, ascii-is_well_formed s h.1)

  -- The secrets of agents are read back whatever bytes were drawn for them.
  pub decrypt-new_agent_secret :
      (bytes key iv : Bytes) {envelope : Bytes}
      → length iv ≡ 12
      → encrypt_secret node (new_agent_secret node bytes) key iv ≡ some envelope
      → decrypt_secret node envelope key ≡ some (new_agent_secret node bytes)
  unfolding new_agent_secret
  decrypt-new_agent_secret bytes key iv {envelope} hiv h =
      decrypt-encrypt (node.base64url bytes) key iv {envelope = envelope}
        (ascii-is_well_formed (node.base64url bytes) (laws.base64url-ascii bytes)) hiv h

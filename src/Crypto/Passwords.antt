-- ===== src/Crypto/Passwords.antt =====
-- `hashPassword` against `verifyPassword` of lib/crypto.ts.
use z_shield.Prelude.{◌≡◌, ◌≢◌, some, List, [], ◌∷◌, arith, length}
use z_shield.Text.{Text, codes, text_eq, split, join, decimal}
use z_shield.Text.Lines.{split-join, text_eq_refl}
use z_shield.Text.Decimal.{decimal-Lacks}
use z_shield.Crypto.{
  Bytes, Node, NodeLaws, hash_password, verify_password, verify_parts, verify_key,
}

module _ (node : Node) (laws : NodeLaws node) where
  stored_parts : Text → Bytes → List Text
  stored_parts password salt =
      codes "scrypt"
      ∷ decimal 32768
      ∷ decimal 8
      ∷ decimal 1
      ∷ node.base64 salt
      ∷ node.base64 (node.scrypt password salt 32 32768 8 1)
      ∷ []

  split-stored :
      (password : Text) (salt : Bytes)
      → split b'$' (join b'$' (stored_parts password salt)) ≡ stored_parts password salt
  unfolding stored_parts
  split-stored password salt = split-join b'$' (codes "scrypt") _ (
    omega arith,
    (
      decimal-Lacks b'$' 32768 (omega arith),
      (
        decimal-Lacks b'$' 8 (omega arith),
        (decimal-Lacks b'$' 1 (omega arith), (laws.base64-Lacks salt, (laws.base64-Lacks _, tt))),
      ),
    ),
  )

  -- A stored hash verifies exactly the passwords that have the same scrypt key under its salt, the
  -- hashed password among them: whatever the hashed password, a password and a salt that is not
  -- empty.
  pub verify-hash :
      (hashed password : Text) (salt : Bytes) {stored : Text}
      → 0 ≢ length salt
      → hash_password node hashed salt ≡ some stored
      → verify_password node password stored
        ≡ text_eq (node.scrypt password salt 32 32768 8 1) (node.scrypt hashed salt 32 32768 8 1)
  unfolding hash_password verify_password stored_parts verify_parts verify_key
  verify-hash hashed password salt {stored} nonempty h =
      let same : join b'$' (stored_parts hashed salt) ≡ stored = ground arith in
      rw (← same) (
        rw split-stored (
          simp (text_eq_refl, laws.number-decimal, laws.from_base64-base64, laws.length-scrypt)
            (ground arith)))

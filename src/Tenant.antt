-- ===== src/Tenant.antt =====
-- lib/db.ts: transactions framed on an organization or on a user.
pub mod Atomic
pub mod Transaction
use z_shield.Prelude.{
  ℕ, Bool, true, false, ◌&&◌, ◌||◌, not, Option, none, some, List, [], ◌∷◌, leb, ◌==◌,
  if◌then◌else◌, length,
}
use z_shield.Text.{Text, codes, text_eq, take, drop}

-- `malformed_id` is the refusal to open a transaction, `violation` a constraint of the database,
-- `unavailable` a database or a cache that does not answer.
pub data Failure : Type 0 where
  malformed_id violation unavailable : Failure

-- What a handler returns, or the exception that ends it.
pub data Result {ℓ} (A : Type ℓ) : Type ℓ where
  ok : A → Result A
  err : Failure → Result A

-- The class [0-9a-z] and the shape prefix_ + 26 of them, of `ORG_ID_PATTERN` and `USER_ID_PATTERN`.
abbrev pub is_lower_alnum : ℕ → Bool
is_lower_alnum c = (leb 48 c && leb c 57) || (leb 97 c && leb c 122)

unfoldable pub all_of : (ℕ → Bool) → Text → Bool
all_of p [] = true
all_of p (c ∷ s) = p c && all_of p s

unfoldable pub is_id : Text → Text → Bool
unfolding all_of
is_id prefix id =
    text_eq (take (length prefix) id) prefix
    && (length (drop (length prefix) id) == 26 && all_of is_lower_alnum (drop (length prefix) id))

-- What a transaction does on a database that answers: COMMIT on a result, ROLLBACK on an exception.
-- Transaction has its statements, one by one, on a connection that may fail.
module _ {ℓ} {S A : Type ℓ} where
  unfoldable pub settle : S → Result A × S → Result A × S
  settle before (ok a, after) = (ok a, after)
  settle before (err e, after) = (err e, before)

  -- `withTenant`, where the connection is given and its statements are answered
  unfoldable pub with_tenant : Text → (S → Result A × S) → S → Result A × S
  unfolding settle
  with_tenant organization_id work s =
      if is_id (codes "org_") organization_id then settle s (work s) else (err malformed_id, s)

  -- `withUser`, likewise
  unfoldable pub with_user : Text → (S → Result A × S) → S → Result A × S
  unfolding settle
  with_user user_id work s =
      if is_id (codes "usr_") user_id then settle s (work s) else (err malformed_id, s)

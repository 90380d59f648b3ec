-- ===== src/Auth/Accounts.antt =====
-- `register`, `uniqueSlug` and `loginWithDiscord` of auth/sessions.ts.
pub mod Registered
pub mod FirstLogin
use mathlib.Core.Option
use z_shield.Prelude.{
  ℕ, zero, suc, ◌+◌, ◌-◌, Bool, true, false, not, ◌&&◌, ◌||◌, Option, none, some, List, [], ◌∷◌,
  ◌++◌, ltb, leb, ◌==◌, if◌then◌else◌, length, is_some,
}
use z_shield.Text.{Text, codes, text_eq, take, decimal}
use z_shield.Table.{update_where, find_where, exists_where, insert_unique}
use z_shield.Crypto.{Bytes, Node, hash_password}
use z_shield.Rbac.{owner}
use z_shield.Tenant.{Result, ok, err, violation, unavailable}
use z_shield.Db.{User, Membership, Organization, Subscription, DiscordIdentity, Db}
use z_shield.Auth.Sessions.{SessionRecord, create_session, audit}
use z_shield.Auth.Login.{has_mfa, set_user}

infixl 5 ◌>>=◌
abbrev ◌>>=◌ : {A B : Type 0} → Option A → (A → Option B) → Option B
none >>= f = none
some a >>= f = f a

-- What a transaction with an INSERT ends in: COMMIT, or ROLLBACK and the exception.
abbrev pub committed : {A : Type 0} → A → Option Db → Db → Result A × Db
committed a (some after) before = (ok a, after)
committed a none before = (err violation, before)

-- `replace(/[\u0300-\u036f]/g, '')`
drop_marks : Text → Text
drop_marks [] = []
drop_marks (c ∷ s) =
    let rest = drop_marks s in if leb 0x300 c && leb c 0x36f then rest else c ∷ rest

abbrev is_slug_code : ℕ → Bool
is_slug_code c = (leb b'a' c && leb c b'z') || (leb b'0' c && leb c b'9')

-- `replace(/[^a-z0-9]+/g, '-')`; `inside` tells that the code unit before was replaced
dash_runs : Bool → Text → Text
dash_runs inside [] = []
dash_runs inside (c ∷ s) =
    let kept = dash_runs false s in
    let replaced = dash_runs true s in
    if is_slug_code c then c ∷ kept else if inside then replaced else b'-' ∷ replaced

-- `replace(/^-+|-+$/g, '')`
trim_dashes_start : Text → Text
trim_dashes_start [] = []
trim_dashes_start (c ∷ s) = let rest = trim_dashes_start s in if c == b'-' then rest else c ∷ s

abbrev dash_then : ℕ → Text → Text
dash_then c [] = if c == b'-' then [] else c ∷ []
dash_then c (d ∷ s) = c ∷ d ∷ s

trim_dashes_end : Text → Text
trim_dashes_end [] = []
trim_dashes_end (c ∷ s) = dash_then c (trim_dashes_end s)

abbrev or_org : Text → Text
or_org [] = codes "org"
or_org (c ∷ s) = c ∷ s

-- the base of a slug; `fold` is `toLowerCase().normalize('NFD')`
unfoldable pub slug_base : (Text → Text) → Text → Text
unfolding drop_marks dash_runs trim_dashes_start trim_dashes_end
slug_base fold name =
    or_org
      (take 40 (trim_dashes_end (trim_dashes_start (dash_runs false (drop_marks (fold name))))))

abbrev pub candidate : Text → ℕ → Text
candidate base zero = base
candidate base (suc n) = base ++ (b'-' ∷ decimal (suc n))

abbrev pub slug_taken : Text → List Organization → Bool
slug_taken slug rows = exists_where (λ o. text_eq o.slug slug) rows

-- the loop of `uniqueSlug`, over the attempts that are left; `last` is the slug with the time
unfoldable pub try_slugs : ℕ → ℕ → Text → Text → List Organization → Text
try_slugs zero attempt base last rows = last
try_slugs (suc left) attempt base last rows =
    let rest = try_slugs left (suc attempt) base last rows in
    let slug = candidate base attempt in
    if ltb (length slug) 2 || slug_taken slug rows then rest else slug

-- `uniqueSlug`; `stamp` is `Date.now().toString(36)`
unfoldable pub unique_slug : (Text → Text) → Text → Text → List Organization → Text
unfolding slug_base try_slugs
unique_slug fold stamp name rows =
    let base = slug_base fold name in try_slugs 20 0 base (base ++ (b'-' ∷ stamp)) rows

-- The identifiers that are drawn for an account and its organization.
pub record FreshIds : Type 0 where
  pub user_id : Text
  pub organization_id : Text
  pub membership_id : Text
  pub subscription_id : Text

pub record NewAccount : Type 0 where
  pub email : Text
  pub password_hash : Text
  pub display_name : Text
  pub email_verified_at : Option ℕ
  pub organization_name : Text
  pub slug : Text

-- fourteen days
abbrev trial : ℕ
trial = 1209600000

abbrev pub new_user : FreshIds → NewAccount → User
new_user ids account = record {
  id = ids.user_id;
  email = account.email;
  password_hash = account.password_hash;
  display_name = account.display_name;
  email_verified_at = account.email_verified_at;
  mfa_enforced = false;
  failed_logins = 0;
  locked_until = none;
  last_login_at = none;
  deleted_at = none;
}

abbrev pub new_owner : FreshIds → ℕ → Membership
new_owner ids now = record {
  id = ids.membership_id;
  organization_id = ids.organization_id;
  user_id = ids.user_id;
  role = owner;
  accepted_at = some now;
  created_at = now;
  updated_at = now;
}

abbrev pub add_organization : FreshIds → NewAccount → List Organization → Option (List Organization)
add_organization ids account rows =
    insert_unique (λ o. text_eq o.id ids.organization_id || text_eq o.slug account.slug)
      (record { id = ids.organization_id; name = account.organization_name; slug = account.slug })
      rows

abbrev pub add_owner : FreshIds → ℕ → List Membership → Option (List Membership)
add_owner ids now rows =
    insert_unique
      (λ m.
        text_eq m.id ids.membership_id
        || (text_eq m.organization_id ids.organization_id && text_eq m.user_id ids.user_id))
      (new_owner ids now) rows

abbrev pub add_subscription : FreshIds → ℕ → List Subscription → Option (List Subscription)
add_subscription ids now rows =
    insert_unique
      (λ s. text_eq s.id ids.subscription_id || text_eq s.organization_id ids.organization_id)
      (record {
        id = ids.subscription_id;
        organization_id = ids.organization_id;
        trial_ends_at = now + trial;
      })
      rows

module _ (same_email : Text → Text → Bool) where
  abbrev pub add_user : FreshIds → NewAccount → List User → Option (List User)
  add_user ids account rows =
      insert_unique (λ u. text_eq u.id ids.user_id || same_email u.email account.email)
        (new_user ids account) rows

  -- the INSERTs that `register` and `loginWithDiscord` share, in their order
  unfoldable pub insert_account : FreshIds → NewAccount → ℕ → Db → Option Db
  insert_account ids account now db = do
    users ← add_user ids account db.users
    organizations ← add_organization ids account db.organizations
    memberships ← add_owner ids now db.memberships
    subscriptions ← add_subscription ids now db.subscriptions
    some (record db {
      users = users;
      organizations = organizations;
      memberships = memberships;
      subscriptions = subscriptions;
    })

pub record RegisterInput : Type 0 where
  pub email : Text
  pub password : Text
  pub display_name : Text
  pub organization_name : Text

-- `created: false`, or the identifiers
pub data Registration : Type 0 where
  existing : Registration
  created : Text → Text → Registration

module _ (node : Node) (same_email : Text → Text → Bool) (fold : Text → Text) where
  abbrev pub is_registered : Text → Db → Bool
  is_registered email db = exists_where (λ u. same_email u.email email) db.users

  abbrev pub registering : FreshIds → Text → RegisterInput → ℕ → Text → Db → Option Db
  registering ids stamp input now hash db =
      Option.map
        (audit (some ids.organization_id) (some ids.user_id) (codes "organization.created")
          (some ids.organization_id) none)
        (insert_account same_email ids
          (record {
            email = input.email;
            password_hash = hash;
            display_name = input.display_name;
            email_verified_at = none;
            organization_name = input.organization_name;
            slug = unique_slug fold stamp input.organization_name db.organizations;
          })
          now db)

  -- `register`, with the salt, the identifiers and the stamp of the time; an exception of the hash
  -- comes before the transaction
  unfoldable pub register :
      Bytes → FreshIds → Text → RegisterInput → ℕ → Db → Result Registration × Db
  register salt ids stamp input now db = elim (hash_password node input.password salt) [
    | none ↦ (err unavailable, db)
    | some hash ↦
        if is_registered input.email db
        then (ok existing, db)
        else committed (created ids.user_id ids.organization_id)
            (registering ids stamp input now hash db) db
  ]

-- ===== src/Bans.antt =====
-- The routes of /api/bans of api/routes.ts that create and lift bans: a ban is active at once, or is
-- pending until it is reviewed.
pub mod Review
pub mod Index
pub mod Confirmed
use mathlib.Core.Option
use z_shield.Prelude.{
  ℕ, String, ◌+◌, ◌*◌, Bool, true, false, not, ◌&&◌, ◌||◌, Option, none, some, List, [], ◌∷◌, ◌++◌,
  if◌then◌else◌,
}
use z_shield.Text.{Text, codes, text_eq}
use z_shield.Table.{update_where, find_where, exists_where, insert_unique, upsert}
use z_shield.Crypto.{Node}
use z_shield.Rbac.{ban_manage}
use z_shield.Tenant.{Result, ok, err, violation, with_tenant}
use z_shield.Db.{BanStatus, active, lifted, pending, kicked, dismissed, Ban, Feedback, Db}
use z_shield.Auth.Sessions.{coalesce}
use z_shield.Middleware.{Request, RequestActor, Handler, ◌>>=◌, ◌>>◌, pure, run, require}
use z_shield.Members.{audited}

abbrev pub is_active : BanStatus → Bool
is_active active = true
is_active _ = false

abbrev pub is_waiting : BanStatus → Bool
is_waiting pending = true
is_waiting _ = false

-- COALESCE(server_id, '')
abbrev pub server_key : Option Text → Text
server_key none = []
server_key (some id) = id

-- bans_active_identifier_idx: the key of the partial index
abbrev pub same_key : Ban → Ban → Bool
same_key a b =
    text_eq a.organization_id b.organization_id
    && (text_eq a.scope b.scope
        && (text_eq a.identifier b.identifier
            && text_eq (server_key a.server_id) (server_key b.server_id)))

abbrev pub active_like : Ban → Ban → Bool
active_like a b = is_active b.status && same_key a b

-- whether the partial index allows the rows
unfoldable pub index_holds : List Ban → Bool
index_holds [] = true
index_holds (b ∷ rows) =
    let rest = index_holds rows in
    if is_active b.status && exists_where (active_like b) rows then false else rest

-- WHERE organization_id = $1 AND id = $2
abbrev pub is_ban : Text → Text → Ban → Bool
is_ban organization_id id b = text_eq b.organization_id organization_id && text_eq b.id id

abbrev pub is_pending_ban : Text → Text → Ban → Bool
is_pending_ban organization_id id b = is_ban organization_id id b && is_waiting b.status

-- What `banCreateSchema` accepts, without the columns that no statement here reads.
pub record BanCreate : Type 0 where
  pub scope : Text
  pub identifier : Text
  pub reason : Text
  pub server_id : Option Text
  pub player_name : Option Text
  pub duration_days : Option ℕ
  pub is_pending : Bool
  pub detector : Option Text

-- 400, 404, 201 with the identifier and the status, 200 with the status
pub data BanReply : Type 0 where
  validation not_found : BanReply
  created : Text → BanStatus → BanReply
  status_ok : BanReply
  reviewed : BanStatus → BanReply

-- the days of a ban in milliseconds
abbrev day : ℕ
day = 86400000

abbrev drafted : Text → RequestActor → BanCreate → BanStatus → Option ℕ → Option Text → ℕ → Ban
drafted id actor body status expires_at detector now = record {
  id = id;
  organization_id = actor.organization_id;
  server_id = body.server_id;
  scope = body.scope;
  identifier = body.identifier;
  player_name = body.player_name;
  reason = body.reason;
  status = status;
  issued_by = some actor.user.user_id;
  detector = detector;
  expires_at = expires_at;
  created_at = now;
  reviewed_by = none;
  reviewed_at = none;
  lifted_by = none;
  lifted_at = none;
  lifted_reason = none;
}

abbrev pub renew : Ban → Ban → Ban
renew new b = record b {
  reason = new.reason;
  expires_at = new.expires_at;
  player_name = coalesce new.player_name b.player_name;
}

-- `rows[0]?.id`: the identifier of the row that was inserted or updated
abbrev id_of : Ban → Option Ban → Text
id_of new none = new.id
id_of new (some b) = b.id

abbrev put : Ban → Option (List Ban) → Db → Result Text × Db
put new none db = (err violation, db)
put new (some rows) db =
    (ok (id_of new (find_where (active_like new) rows)), record db { bans = rows })

abbrev put_pending : Ban → Option (List Ban) → Db → Result Text × Db
put_pending new none db = (err violation, db)
put_pending new (some rows) db = (ok new.id, record db { bans = rows })

-- the transaction of POST /api/bans
unfoldable pub write_ban : Text → RequestActor → BanCreate → ℕ → Db → Result Text × Db
write_ban id actor body now db =
    if body.is_pending
    then (let new = drafted id actor body pending none body.detector now in
        put_pending new (insert_unique (λ b. text_eq b.id id) new db.bans) db)
    else (let new =
          drafted id actor body active (Option.map (λ days. now + days * day) body.duration_days)
            none now in
        put new
          (upsert (active_like new) (renew new) (λ b. false) (λ b. text_eq b.id id) new db.bans) db)

-- the transaction of POST /api/bans/:id/lift
abbrev pub is_active_ban : Text → Text → Ban → Bool
is_active_ban organization_id id b = is_ban organization_id id b && is_active b.status

unfoldable pub lift_ban : RequestActor → Text → Option Text → ℕ → Db → Result Bool × Db
lift_ban actor id reason now db = (
  ok (exists_where (is_active_ban actor.organization_id id) db.bans),
  record db {
    bans =
        update_where (is_active_ban actor.organization_id id)
          (λ b. record b {
            status = lifted;
            lifted_at = some now;
            lifted_by = some actor.user.user_id;
            lifted_reason = reason;
          })
          db.bans;
  },
)

module _ (node : Node) where
  abbrev creating : Request → Text → ℕ → RequestActor → Option BanCreate → Handler BanReply
  creating request id now actor none = pure validation
  creating request id now actor (some body) = do
    result ← run (with_tenant actor.organization_id (write_ban id actor body now))
    audited actor (codes (if body.is_pending then "ban.pending_created" else "ban.created")) result
        request.ip
    pure (created result (if body.is_pending then pending else active))

  -- POST /api/bans, with the identifier that was drawn, without the contribution to the shared bans
  unfoldable pub post_ban : Request → Text → Option BanCreate → ℕ → Handler BanReply
  post_ban request id body now = do
    actor ← require node request ban_manage now
    creating request id now actor body

  abbrev pub answer : Request → RequestActor → Text → String → BanReply → Bool → Handler BanReply
  answer request actor id action reply false = pure not_found
  answer request actor id action reply true = do
    audited actor (codes action) id request.ip
    pure reply

  -- POST /api/bans/:id/lift; the reason is `none` where the schema refuses the body
  unfoldable pub post_lift : Request → Text → Option Text → ℕ → Handler BanReply
  post_lift request id reason now = do
    actor ← require node request ban_manage now
    done ← run (with_tenant actor.organization_id (lift_ban actor id reason now))
    answer request actor id "ban.lifted" status_ok done

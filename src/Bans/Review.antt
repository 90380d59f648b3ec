-- ===== src/Bans/Review.antt =====
-- The routes of /api/bans of api/routes.ts that review a pending ban.
use z_shield.Prelude.{ℕ, Bool, true, false, ◌&&◌, Option, none, some, List, [], ◌∷◌, if◌then◌else◌}
use z_shield.Text.{Text, text_eq}
use z_shield.Table.{update_where, find_where, insert_unique}
use z_shield.Crypto.{Node}
use z_shield.Rbac.{ban_manage}
use z_shield.Tenant.{Result, ok, err, violation, with_tenant}
use z_shield.Db.{BanStatus, active, lifted, kicked, dismissed, Ban, Feedback, Db}
use z_shield.Middleware.{Request, RequestActor, Handler, ◌>>=◌, run, require}
use z_shield.Bans.{BanReply, reviewed, active_like, index_holds, is_pending_ban, answer}

-- the UPDATE of a review; the index may refuse the row
abbrev pub indexed : List Ban → Db → Result (Unit {0}) × Db
indexed rows db =
    if index_holds rows then (ok tt, record db { bans = rows }) else (err violation, db)

abbrev pub reviewed_as : BanStatus → RequestActor → ℕ → Ban → Ban
reviewed_as status actor now b = record b {
  status = status;
  reviewed_by = some actor.user.user_id;
  reviewed_at = some now;
}

unfoldable pub set_reviewed : BanStatus → RequestActor → Text → ℕ → List Ban → List Ban
set_reviewed status actor id now rows =
    update_where (is_pending_ban actor.organization_id id) (reviewed_as status actor now) rows

-- SET status = 'LIFTED' … WHERE status = 'ACTIVE', over the key of the ban
unfoldable pub lift_same : Ban → List Ban → List Ban
lift_same ban rows = update_where (active_like ban) (λ b. record b { status = lifted }) rows

-- `reviewFeedback`, with the identifier that was drawn; no detector is NULL or the empty text
abbrev feedback_row : Text → RequestActor → Ban → Bool → Text → Feedback
feedback_row id actor ban confirmed detector = record {
  id = id;
  organization_id = actor.organization_id;
  server_id = ban.server_id;
  detector = detector;
  scope = ban.scope;
  identifier = ban.identifier;
  confirmed = confirmed;
  ban_id = ban.id;
  created_by = actor.user.user_id;
}

abbrev noted : Option (List Feedback) → Db → Result Bool × Db
noted none db = (err violation, db)
noted (some rows) db = (ok true, record db { detection_feedback = rows })

abbrev pub review_feedback : Text → RequestActor → Ban → Bool → Option Text → Db → Result Bool × Db
review_feedback id actor ban confirmed none db = (ok true, db)
review_feedback id actor ban confirmed (some []) db = (ok true, db)
review_feedback id actor ban confirmed (some (c ∷ s)) db =
    noted
      (insert_unique (λ f. text_eq f.organization_id actor.organization_id && text_eq f.id id)
        (feedback_row id actor ban confirmed (c ∷ s)) db.detection_feedback)
      db

abbrev pub then_feedback :
    Text → RequestActor → Ban → Bool → Result (Unit {0}) × Db → Result Bool × Db
then_feedback id actor ban confirmed (ok u, db) =
    review_feedback id actor ban confirmed ban.detector db
then_feedback id actor ban confirmed (err e, db) = (err e, db)

-- `loadPendingBan`
abbrev pub load_pending_ban : Text → Text → List Ban → Option Ban
load_pending_ban organization_id id rows = find_where (is_pending_ban organization_id id) rows

-- the transaction of POST /api/bans/:id/confirm; what else is active under the key is lifted first
unfoldable pub confirm_ban : Text → RequestActor → Text → ℕ → Db → Result Bool × Db
confirm_ban feedback_id actor id now db = elim (load_pending_ban actor.organization_id id db.bans) [
  | none ↦ (ok false, db)
  | some ban ↦
      then_feedback feedback_id actor ban true
        (indexed (set_reviewed active actor id now (lift_same ban db.bans)) db)
]

-- the transaction of POST /api/bans/:id/kick
unfoldable pub kick_ban : Text → RequestActor → Text → ℕ → Db → Result Bool × Db
kick_ban feedback_id actor id now db = elim (load_pending_ban actor.organization_id id db.bans) [
  | none ↦ (ok false, db)
  | some ban ↦
      then_feedback feedback_id actor ban true
        (indexed (set_reviewed kicked actor id now db.bans) db)
]

-- the transaction of POST /api/bans/:id/false-positive
unfoldable pub dismiss_ban : Text → RequestActor → Text → ℕ → Db → Result Bool × Db
dismiss_ban feedback_id actor id now db = elim (load_pending_ban actor.organization_id id db.bans) [
  | none ↦ (ok false, db)
  | some ban ↦
      then_feedback feedback_id actor ban false
        (indexed (set_reviewed dismissed actor id now db.bans) db)
]

module _ (node : Node) where
  unfoldable pub post_confirm : Request → Text → Text → ℕ → Handler BanReply
  post_confirm request feedback_id id now = do
    actor ← require node request ban_manage now
    done ← run (with_tenant actor.organization_id (confirm_ban feedback_id actor id now))
    answer node request actor id "ban.confirmed" (reviewed active) done

  unfoldable pub post_kick : Request → Text → Text → ℕ → Handler BanReply
  post_kick request feedback_id id now = do
    actor ← require node request ban_manage now
    done ← run (with_tenant actor.organization_id (kick_ban feedback_id actor id now))
    answer node request actor id "ban.reduced_kick" (reviewed kicked) done

  unfoldable pub post_false_positive : Request → Text → Text → ℕ → Handler BanReply
  post_false_positive request feedback_id id now = do
    actor ← require node request ban_manage now
    done ← run (with_tenant actor.organization_id (dismiss_ban feedback_id actor id now))
    answer node request actor id "ban.false_positive" (reviewed dismissed) done

-- ===== src/Tests/Bans.antt =====
-- A pending ban of a player who has an active one.
use z_shield.Prelude.{◌≡◌, refl, Bool, true, false, ◌&&◌, none, some, [], ◌∷◌, arith}
use z_shield.Text.{Text, codes, text_eq}
use z_shield.Table.{exists_where, find_where, update_where, insert_unique}
use z_shield.Tenant.{ok}
use z_shield.Db.{BanStatus, active, lifted, pending, Ban, Db}
use z_shield.Bans.{index_holds}
use z_shield.Bans.Review.{confirm_ban, set_reviewed, lift_same, reviewed_as}
use z_shield.Table.Keys.{Unique}
use z_shield.Bans.Confirmed.{confirm_ban-index}
use z_shield.Tests.Accounts.{accounts, actor_a, org}

abbrev ban : Text → BanStatus → Ban
ban id status = record {
  id = id;
  organization_id = org;
  server_id = none;
  scope = codes "license";
  identifier = codes "license:1";
  player_name = none;
  reason = codes "cheat";
  status = status;
  issued_by = none;
  detector = some (codes "weapon.firerate");
  expires_at = none;
  created_at = 1;
  reviewed_by = none;
  reviewed_at = none;
  lifted_by = none;
  lifted_at = none;
  lifted_reason = none;
}

abbrev db : Db
db = record accounts { bans = ban (codes "ban_1") active ∷ ban (codes "ban_2") pending ∷ [] }

distinct : Unique (λ b. b.id) db.bans
distinct = (((λ e. ground arith), tt), (tt, tt))

index_before : index_holds db.bans ≡ true
unfolding index_holds exists_where text_eq
index_before = refl

no_feedback :
    exists_where
      (λ f. text_eq f.organization_id actor_a.organization_id && text_eq f.id (codes "det_1"))
      db.detection_feedback
    ≡ false
unfolding exists_where
no_feedback = refl

confirmed_runs :
    (confirm_ban (codes "det_1") actor_a (codes "ban_2") 5 db).1.bans
    ≡ ban (codes "ban_1") lifted ∷ reviewed_as active actor_a 5 (ban (codes "ban_2") pending) ∷ []
unfolding confirm_ban set_reviewed lift_same index_holds find_where exists_where update_where
    insert_unique text_eq
confirmed_runs = refl

confirm_ban-index_example :
    (done : Bool) × ((confirm_ban (codes "det_1") actor_a (codes "ban_2") 5 db).0 ≡ ok done)
    × (index_holds (confirm_ban (codes "det_1") actor_a (codes "ban_2") 5 db).1.bans ≡ true)
confirm_ban-index_example =
    confirm_ban-index (codes "det_1") actor_a (codes "ban_2") 5 db distinct index_before no_feedback

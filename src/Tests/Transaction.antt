-- ===== src/Tests/Transaction.antt =====
-- A transaction whose COMMIT is applied and not answered.
use z_shield.Prelude.{
  true, ℕ, suc, ◌≡◌, refl, false, Option, none, some, inr, ltb, is_some, if◌then◌else◌, arith,
}
use mathlib.Core.Option
use z_shield.Text.{Text, codes, text_eq, take, drop}
use z_shield.Tenant.{Result, ok, err, unavailable, is_id}
use z_shield.Tenant.Transaction.{Server, Laws, with_tenant_on, trying, committing, finishing}
use z_shield.Tenant.Transaction.Outcome.{Outcome, with_tenant_on-Outcome}

-- a database of one number, and in a transaction the number that it has written and its frame
record Wire : Type 0 where
  rows : ℕ
  working : Option (ℕ × Option Text)

abbrev visible : ℕ → Option (ℕ × Option Text) → ℕ
visible n none = n
visible n (some w) = w.0

abbrev frame : Option (ℕ × Option Text) → Option Text
frame none = none
frame (some w) = w.1

abbrev with_frame : Text → Option (ℕ × Option Text) → Option (ℕ × Option Text)
with_frame id none = none
with_frame id (some w) = some (w.0, some id)

abbrev idle : ℕ → Wire
idle n = record { rows = n; working = none }

-- a COMMIT of ten or more is applied, but its answer is lost
abbrev wire : Server ℕ Wire
wire = record {
  committed = λ c. c.rows;
  pending = λ c. visible c.rows c.working;
  is_open = λ c. is_some c.working;
  framed = λ c. frame c.working;
  connect = λ c. (ok tt, c);
  begin = λ c. (ok tt, record c { working = some (c.rows, none) });
  set_local = λ id c. (ok tt, record c { working = with_frame id c.working });
  commit = λ c. (
    if ltb (visible c.rows c.working) 10 then ok tt else err unavailable,
    idle (visible c.rows c.working),
  );
  rollback = λ c. (ok tt, idle c.rows);
  release = λ c. c;
}

visible-with_frame :
    (n : ℕ) (id : Text) (w : Option (ℕ × Option Text)) → visible n (with_frame id w) ≡ visible n w
visible-with_frame n id none = refl
visible-with_frame n id (some w) = refl

frame-with_frame :
    (id : Text) (w : Option (ℕ × Option Text))
    → is_some w ≡ true
    → frame (with_frame id w) ≡ some id
frame-with_frame id none h = absurd (ground arith)
frame-with_frame id (some w) h = refl

frame-idle : (w : Option (ℕ × Option Text)) → is_some w ≡ false → frame w ≡ none
frame-idle none h = refl
frame-idle (some w) h = absurd (ground arith)

wire_laws : Laws wire
wire_laws = record {
  connect-committed = λ c. refl;
  connect-is_open = λ c. refl;
  begin-committed = λ c. refl;
  begin-pending = λ c closed answered. refl;
  begin-is_open = λ c answered. refl;
  set_local-committed = λ id c. refl;
  set_local-pending = λ id c answered. visible-with_frame c.rows id c.working;
  set_local-framed = λ id c open_already answered. frame-with_frame id c.working open_already;
  is_open-framed = λ c closed. frame-idle c.working closed;
  commit-answered = λ c answered. (refl, refl);
  commit-unanswered = λ c. inr refl;
  rollback-committed = λ c. refl;
  rollback-is_open = λ c. refl;
  release-committed = λ c. refl;
  release-is_open = λ c. refl;
}

abbrev counting : Wire → Result ℕ × Wire
counting c = (
  ok (visible c.rows c.working),
  record c { working = Option.map (λ w. (suc w.0, w.1)) c.working },
)

abbrev org : Text
org = codes "org_00000000000000000000000000"

lost_answer : with_tenant_on wire org counting (idle 9) ≡ (err unavailable, idle 10)
unfolding with_tenant_on trying committing finishing is_id text_eq take drop
lost_answer = refl

answered : with_tenant_on wire org counting (idle 4) ≡ (ok 4, idle 5)
unfolding with_tenant_on trying committing finishing is_id text_eq take drop
answered = refl

with_tenant_on-Outcome_example :
    Outcome wire wire_laws org counting
      (idle 9)
      (with_tenant_on wire org counting (idle 9)).0
      (with_tenant_on wire org counting (idle 9)).1
    × (is_some (with_tenant_on wire org counting (idle 9)).1.working ≡ false)
    × (frame (with_tenant_on wire org counting (idle 9)).1.working ≡ none)
with_tenant_on-Outcome_example =
    with_tenant_on-Outcome wire wire_laws org counting (λ c. refl) (idle 9) refl

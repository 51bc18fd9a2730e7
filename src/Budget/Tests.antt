-- ===== src/Budget/Tests.antt =====
-- Runs of the budget operations on small tables, and the theorems at such inputs.
use civic_loop.Prelude.Int.{pos}
use civic_loop.Prelude.Table.{find, save}
use civic_loop.Prelude.Result.{Result, ok, err, Returns}
use civic_loop.Prelude.{◌+◌, ◌*◌, ◌≤◌, ◌<◌, arith, Option, ℕ, ◌≡◌, refl, none, some, [], ◌∷◌}
use civic_loop.Budget.{
  workflow, ModelProfile, RoutingPolicy, BudgetReservation, reserved, Database, BudgetError, by_run,
  create_entry, take_back, recorded, settled,
}
use civic_loop.Budget.Cost.{month_start, cost, profile_and_policy, get_profile, get_policy}
use civic_loop.Budget.Release.{
  release_budget, charge_reserved_budget, expire_reservations, expire_period_reservations,
  release_all,
}
use civic_loop.Budget.Reserve.{ReserveRequest, reserve_budget, period_for_update, hold}
use civic_loop.Budget.Settle.{settle_budget}
use civic_loop.Budget.Accounts.{IsBalanced}
use civic_loop.Budget.Price.{cost_ceiling}
use civic_loop.Budget.Accounts.Sweep.{freed}
use civic_loop.Budget.Release.{charged, release_held}
use civic_loop.Budget.Settle.{settle_held, book}
use civic_loop.Budget.Accounts.{Sound}
use civic_loop.Budget.Accounts.Outcomes.{
  SettledAs, settle_budget-Sound, Acted, release_budget-Acted, charge_reserved_budget-Acted,
}
use civic_loop.Budget.Accounts.Admission.{Admitted, IsFresh, reserve_budget-Sound}
use civic_loop.Budget.Accounts.ExpireAll.{ReleasesDue, expire_reservations-ReleasesDue}
use civic_loop.Budget.Accounts.Calls.{here, next, reserves, Reach-IsBalanced}

-- 2026-11-26 and a leap day
month_start-november : month_start 1_795_711_500_000_000 ≡ 20_758
unfolding month_start
month_start-november = refl

month_start-leap_day : month_start 1_709_208_000_000_000 ≡ 19_754
unfolding month_start
month_start-leap_day = refl

abbrev profile : ModelProfile
profile = record {
  pk = 1;
  profile_id = "workflow-default";
  revision = 1;
  purpose = workflow;
  max_input_tokens = 10_000;
  max_output_tokens = 2_000;
  input_price_microusd_per_million = some 3_000_000;
  output_price_microusd_per_million = some 15_000_000;
}

abbrev policy : RoutingPolicy
policy = record {
  purpose = workflow;
  model_profile = 1;
  per_run_limit_microusd = 60_000;
  monthly_limit_microusd = 100_000;
}

abbrev empty : Database
empty = record {
  profiles = profile ∷ [];
  policies = policy ∷ [];
  periods = [];
  reservations = [];
  ledger = [];
  runs = [];
}

abbrev first_request : ReserveRequest
first_request = record {
  run_id = 7;
  profile_id = "workflow-default";
  profile_revision = 1;
  estimated_input_tokens = pos 10_000;
  estimated_output_tokens = pos 2_000;
  expires_at = none;
}

abbrev now : ℕ
now = 1_795_711_500_000_000

abbrev outcome : Result BudgetError (BudgetReservation × Database) → Database
outcome (ok (r, db)) = db
outcome (err e) = empty

abbrev one : Database
one = outcome (reserve_budget first_request now empty)

one_held :
    Returns (λ out. out.0.reserved_cost_microusd ≡ 60_000) (reserve_budget first_request now empty)
unfolding reserve_budget profile_and_policy get_profile get_policy cost period_for_update
    expire_period_reservations hold month_start find save create_entry release_all recorded
one_held = refl

-- The second run of 60,000 does not fit the month's 100,000.
second_refused :
    reserve_budget (record first_request { run_id = 8 }) now one ≡ err BudgetError.budget_exhausted
unfolding reserve_budget profile_and_policy get_profile get_policy cost period_for_update
    expire_period_reservations hold month_start find save create_entry release_all recorded
second_refused = refl

IsBalanced-empty : IsBalanced empty
unfolding find recorded
IsBalanced-empty = record {
  periods_balance = λ month p h. absurd (cc h);
  homed = λ run r h. absurd (cc h);
  entered = λ run kind. ground arith;
  distinct = tt;
  months_distinct = tt;
}

-- The reservation that the first request gets.
abbrev answered : Result BudgetError (BudgetReservation × Database) → Option BudgetReservation
answered (ok (r, db)) = some r
answered (err e) = none

abbrev held_one : BudgetReservation
held_one = record {
  run_id = 7;
  model_profile = profile;
  routing_policy = policy;
  period = 20_758;
  estimated_input_tokens = pos 10_000;
  estimated_output_tokens = pos 2_000;
  reserved_cost_microusd = 60_000;
  settled_input_tokens = none;
  settled_output_tokens = none;
  settled_cost_microusd = none;
  status = reserved;
  expires_at = 1_795_712_400_000_000;
}

reserved_one : reserve_budget first_request now empty ≡ ok (held_one, one)
unfolding reserve_budget profile_and_policy get_profile get_policy cost period_for_update
    expire_period_reservations hold month_start find save create_entry release_all recorded
reserved_one = refl

Reach-IsBalanced_example : IsBalanced one
Reach-IsBalanced_example =
    Reach-IsBalanced (next here (reserves first_request now reserved_one)) IsBalanced-empty

IsBalanced-one : IsBalanced one
IsBalanced-one =
    Reach-IsBalanced (next here (reserves first_request now reserved_one)) IsBalanced-empty

reserve_budget-Sound_example :
    Sound
      (λ out.
        Admitted first_request out
        × (find by_run 7 empty.reservations ≡ none → IsFresh first_request now out.0))
      (reserve_budget first_request now empty)
reserve_budget-Sound_example = reserve_budget-Sound first_request now empty IsBalanced-empty

settle_budget-Sound_example :
    Sound (SettledAs 7 (pos 9_000) (pos 1_000)) (settle_budget 7 (pos 9_000) (pos 1_000) one)
settle_budget-Sound_example = settle_budget-Sound 7 (pos 9_000) (pos 1_000) one IsBalanced-one

release_budget-Acted_example : Returns (Acted 7 freed one) (release_budget 7 one)
release_budget-Acted_example = release_budget-Acted 7 one IsBalanced-one

charge_reserved_budget-Acted_example : Returns (Acted 7 charged one) (charge_reserved_budget 7 one)
charge_reserved_budget-Acted_example = charge_reserved_budget-Acted 7 one IsBalanced-one

expire_reservations-ReleasesDue_example :
    Returns (ReleasesDue 1_795_712_400_000_000 one) (expire_reservations 1_795_712_400_000_000 one)
expire_reservations-ReleasesDue_example =
    expire_reservations-ReleasesDue 1_795_712_400_000_000 one IsBalanced-one

-- The run is settled at 42,000 of the 60,000 that were held.
abbrev settled_one : BudgetReservation
settled_one = record held_one {
  settled_input_tokens = some (pos 9_000);
  settled_output_tokens = some (pos 1_000);
  settled_cost_microusd = some 42_000;
  status = settled;
}

abbrev two : Database
two = outcome (settle_budget 7 (pos 9_000) (pos 1_000) one)

settled_two : settle_budget 7 (pos 9_000) (pos 1_000) one ≡ ok (settled_one, two)
unfolding reserve_budget profile_and_policy get_profile get_policy cost period_for_update
    expire_period_reservations hold month_start find save create_entry release_all recorded
    settle_budget settle_held book take_back
settled_two = refl

found_one : find by_run 7 one.reservations ≡ some held_one
unfolding reserve_budget profile_and_policy get_profile get_policy cost period_for_update
    expire_period_reservations hold month_start find save create_entry release_all recorded
found_one = refl

abbrev optional_outcome : Result BudgetError (Option BudgetReservation × Database) → Database
optional_outcome (ok (r, db)) = db
optional_outcome (err e) = empty

abbrev freed_one : Database
freed_one = optional_outcome (release_budget 7 one)

released_one : release_budget 7 one ≡ ok (some (freed held_one), freed_one)
unfolding reserve_budget profile_and_policy get_profile get_policy cost period_for_update
    expire_period_reservations hold month_start find save create_entry release_all recorded
    release_budget release_held take_back
released_one = refl

cost_ceiling_example :
    (9_001 * 3_000_001 + 7 * 15_000_000 ≤ 27_109 * 1_000_000)
    × (27_109 * 1_000_000 < 9_001 * 3_000_001 + 7 * 15_000_000 + 1_000_000)
unfolding cost
cost_ceiling_example =
    cost_ceiling (record profile { input_price_microusd_per_million = some 3_000_001 }) 9_001 7
      3_000_001 15_000_000 27_109 refl refl refl

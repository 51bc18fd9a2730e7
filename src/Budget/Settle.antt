-- ===== src/Budget/Settle.antt =====
-- `settle_budget` of backend/agents/budgets.py.
use civic_loop.Prelude.{ℕ, ◌+◌, Bool, false, not, ◌||◌, Option, none, some, ltb, if◌then◌else◌}
use civic_loop.Prelude.Int.{ℤ, int_eq, exceeds}
use civic_loop.Prelude.Result.{Result, ok, err, ◌>>=◌, ◌>>◌, refuse, demand}
use civic_loop.Prelude.Table.{find, save}
use civic_loop.Budget.{
  BudgetPeriod, BudgetLedgerRecord, BudgetReservation, ReservationStatus, reserved, settled,
  released, entry_settled, Database, BudgetError, budget_exhausted, budget_request_conflict,
  does_not_exist, by_month, by_run, create_entry, take_back,
}
use civic_loop.Budget.Cost.{cost}

-- `stored == tokens`, where the column may be null
abbrev pub column_eq : Option ℤ → ℤ → Bool
column_eq none tokens = false
column_eq (some stored) tokens = int_eq stored tokens

-- The reservation once it is settled, and the ledger entry for it.
abbrev pub settled_as : BudgetReservation → ℤ → ℤ → ℕ → BudgetReservation
settled_as r input_tokens output_tokens actual = record r {
  status = settled;
  settled_input_tokens = some input_tokens;
  settled_output_tokens = some output_tokens;
  settled_cost_microusd = some actual;
}

abbrev pub settle_entry : BudgetReservation → ℤ → ℤ → ℕ → BudgetLedgerRecord
settle_entry r input_tokens output_tokens actual = record {
  run_id = r.run_id;
  model_profile_id_snapshot = r.model_profile.profile_id;
  model_profile_revision = r.model_profile.revision;
  entry_type = entry_settled;
  input_tokens = input_tokens;
  output_tokens = output_tokens;
  cost_microusd = actual;
}

-- The booking of an actual cost on the period. `projected` is settled + reserved + (actual - reserved
-- cost); the reserved cost stands on the side of the limit.
unfoldable pub book :
    BudgetReservation
    → ℤ
    → ℤ
    → ℕ
    → BudgetPeriod
    → Database
    → Result BudgetError (BudgetReservation × Database)
unfolding create_entry take_back
book r input_tokens output_tokens actual period db = do
  refuse
      (ltb (period.limit_microusd + r.reserved_cost_microusd)
        (period.settled_microusd + period.reserved_microusd + actual))
      budget_exhausted
  left ← take_back period.reserved_microusd r.reserved_cost_microusd
  ledger ← create_entry (settle_entry r input_tokens output_tokens actual) db.ledger
  ok (
    settled_as r input_tokens output_tokens actual,
    record db {
      periods =
          save by_month
            (record period {
              reserved_microusd = left;
              settled_microusd = period.settled_microusd + actual;
            })
            db.periods;
      reservations = save by_run (settled_as r input_tokens output_tokens actual) db.reservations;
      ledger = ledger;
    },
  )

unfoldable pub settle_held :
    BudgetReservation → ℤ → ℤ → Database → Result BudgetError (BudgetReservation × Database)
unfolding book
settle_held r input_tokens output_tokens db = do
  actual ← cost r.model_profile input_tokens output_tokens
  refuse
      (exceeds input_tokens r.model_profile.max_input_tokens
        || exceeds output_tokens r.model_profile.max_output_tokens)
      budget_request_conflict
  refuse (ltb r.routing_policy.per_run_limit_microusd actual) budget_exhausted
  period ← demand (find by_month r.period db.periods) does_not_exist
  book r input_tokens output_tokens actual period db

-- A released reservation is refused; a settled one may only be settled again with the same usage.
unfoldable pub settle_by_status :
    ReservationStatus
    → BudgetReservation
    → ℤ
    → ℤ
    → Database
    → Result BudgetError (BudgetReservation × Database)
unfolding settle_held
settle_by_status released r input_tokens output_tokens db = err budget_request_conflict
settle_by_status settled r input_tokens output_tokens db =
    if not (column_eq r.settled_input_tokens input_tokens)
      || not (column_eq r.settled_output_tokens output_tokens)
    then err budget_request_conflict
    else ok (r, db)
settle_by_status reserved r input_tokens output_tokens db =
    settle_held r input_tokens output_tokens db

unfoldable pub settle_budget :
    ℕ → ℤ → ℤ → Database → Result BudgetError (BudgetReservation × Database)
unfolding settle_by_status
settle_budget run_id input_tokens output_tokens db = do
  r ← demand (find by_run run_id db.reservations) budget_request_conflict
  settle_by_status r.status r input_tokens output_tokens db

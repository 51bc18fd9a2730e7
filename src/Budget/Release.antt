-- ===== src/Budget/Release.antt =====
-- `release_budget`, `_expire_period_reservations`, `expire_reservations` and
-- `charge_reserved_budget` of backend/agents/budgets.py.
use civic_loop.Prelude.{
  ℕ, ◌+◌, Bool, true, false, not, ◌&&◌, ◌||◌, Option, none, some, List, [], ◌∷◌, ◌==◌, leb, any,
  keep, length, if◌then◌else◌,
}
use civic_loop.Prelude.Int.{pos}
use civic_loop.Prelude.Result.{Result, ok, ◌>>=◌, demand}
use civic_loop.Prelude.Table.{find, save}
use civic_loop.Budget.{
  BudgetPeriod, BudgetReservation, ReservationStatus, reserved, settled, released, entry_settled,
  entry_released, BudgetLedgerRecord, AgentRun, RunStatus, queued, running, Database, BudgetError,
  does_not_exist, by_month, by_run, create_entry, take_back,
}

abbrev pub is_reserved : ReservationStatus → Bool
is_reserved reserved = true
is_reserved _ = false

-- The ledger entry for the reserved cost that a reservation gives back.
abbrev pub release_entry : BudgetReservation → BudgetLedgerRecord
release_entry r = record {
  run_id = r.run_id;
  model_profile_id_snapshot = r.model_profile.profile_id;
  model_profile_revision = r.model_profile.revision;
  entry_type = entry_released;
  input_tokens = pos 0;
  output_tokens = pos 0;
  cost_microusd = r.reserved_cost_microusd;
}

unfoldable pub release_held :
    BudgetReservation → Database → Result BudgetError (Option BudgetReservation × Database)
unfolding create_entry take_back
release_held r db = do
  period ← demand (find by_month r.period db.periods) does_not_exist
  left ← take_back period.reserved_microusd r.reserved_cost_microusd
  let freed = record r { status = released }
  ledger ← create_entry (release_entry r) db.ledger
  ok (
    some freed,
    record db {
      periods = save by_month (record period { reserved_microusd = left }) db.periods;
      reservations = save by_run freed db.reservations;
      ledger = ledger;
    },
  )

-- The first guard of `release_budget` and `charge_reserved_budget`: only a reservation that is still
-- reserved is acted on; any other is returned as it is.
abbrev pub when_reserved :
    (BudgetReservation → Database → Result BudgetError (Option BudgetReservation × Database))
    → Option BudgetReservation
    → Database
    → Result BudgetError (Option BudgetReservation × Database)
when_reserved act none db = ok (none, db)
when_reserved act (some r) db = if is_reserved r.status then act r db else ok (some r, db)

unfoldable pub release_budget :
    ℕ → Database → Result BudgetError (Option BudgetReservation × Database)
release_budget run_id db = when_reserved release_held (find by_run run_id db.reservations) db

-- The reservation once its full estimate is charged, and the ledger entry for it.
abbrev pub charged : BudgetReservation → BudgetReservation
charged r = record r {
  status = settled;
  settled_input_tokens = some r.estimated_input_tokens;
  settled_output_tokens = some r.estimated_output_tokens;
  settled_cost_microusd = some r.reserved_cost_microusd;
}

abbrev pub charge_entry : BudgetReservation → BudgetLedgerRecord
charge_entry r = record (release_entry r) {
  entry_type = entry_settled;
  input_tokens = r.estimated_input_tokens;
  output_tokens = r.estimated_output_tokens;
}

unfoldable pub charge_held :
    BudgetReservation → Database → Result BudgetError (Option BudgetReservation × Database)
unfolding create_entry take_back
charge_held r db = do
  period ← demand (find by_month r.period db.periods) does_not_exist
  left ← take_back period.reserved_microusd r.reserved_cost_microusd
  ledger ← create_entry (charge_entry r) db.ledger
  ok (
    some (charged r),
    record db {
      periods =
          save by_month
            (record period {
              reserved_microusd = left;
              settled_microusd = period.settled_microusd + r.reserved_cost_microusd;
            })
            db.periods;
      reservations = save by_run (charged r) db.reservations;
      ledger = ledger;
    },
  )

unfoldable pub charge_reserved_budget :
    ℕ → Database → Result BudgetError (Option BudgetReservation × Database)
charge_reserved_budget run_id db = when_reserved charge_held (find by_run run_id db.reservations) db

abbrev pub is_open : RunStatus → Bool
is_open queued = true
is_open running = true
is_open _ = false

-- The runs whose reservations are kept past their expiry: those of the Hermes lane that are queued
-- or running, or whose admission is disabled.
abbrev pub protected : ℕ → List AgentRun → Bool
protected run_id runs =
    any
      (λ (run : AgentRun).
        (run.id == run_id) && (run.hermes_lane && (is_open run.status || run.admission_disabled)))
      runs

abbrev pub is_due : ℕ → ℕ → List AgentRun → BudgetReservation → Bool
is_due month now runs r =
    (r.period == month)
    && (is_reserved r.status && (leb r.expires_at now && not (protected r.run_id runs)))

-- The loop over the expired reservations, with the period as the variable that it updates. The
-- source checks the sign of the last value only, which is the least.
unfoldable pub release_all :
    List BudgetReservation → BudgetPeriod → Database → Result BudgetError (BudgetPeriod × Database)
unfolding create_entry take_back
release_all [] period db = ok (period, db)
release_all (r ∷ rs) period db = do
  left ← take_back period.reserved_microusd r.reserved_cost_microusd
  ledger ← create_entry (release_entry r) db.ledger
  release_all rs (record period { reserved_microusd = left })
      (record db {
        reservations = save by_run (record r { status = released }) db.reservations;
        ledger = ledger;
      })

unfoldable pub save_if_any : List BudgetReservation → BudgetPeriod × Database → ℕ × Database
save_if_any [] (period, db) = (0, db)
save_if_any (r ∷ rs) (period, db) =
    (length (r ∷ rs), record db { periods = save by_month period db.periods })

unfoldable pub expire_period_reservations :
    BudgetPeriod → ℕ → Database → Result BudgetError (ℕ × Database)
unfolding save_if_any
expire_period_reservations period now db =
    let expired = keep (is_due period.month now db.runs) db.reservations in
    do done ← release_all expired period db; ok (save_if_any expired done)

unfoldable pub expire_each :
    List BudgetPeriod → ℕ → ℕ → Database → Result BudgetError (ℕ × Database)
expire_each [] now count db = ok (count, db)
expire_each (period ∷ rest) now count db = do
  (expired, db') ← expire_period_reservations period now db
  expire_each rest now (count + expired) db'

-- Whether a reservation of the period has run out, protected or not.
abbrev pub has_expired : ℕ → List BudgetReservation → BudgetPeriod → Bool
has_expired now reservations period =
    any
      (λ (r : BudgetReservation).
        (r.period == period.month) && (is_reserved r.status && leb r.expires_at now))
      reservations

unfoldable pub expire_reservations : ℕ → Database → Result BudgetError (ℕ × Database)
unfolding expire_each
expire_reservations now db =
    expire_each (keep (has_expired now db.reservations) db.periods) now 0 db

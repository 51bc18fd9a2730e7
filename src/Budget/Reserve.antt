-- ===== src/Budget/Reserve.antt =====
-- `_period_for_update` and `reserve_budget` of backend/agents/budgets.py.
use civic_loop.Prelude.{
  ℕ, ◌+◌, String, Bool, not, ◌&&◌, ◌||◌, Option, none, some, [], ◌∷◌, ◌++◌, str_eq, ◌==◌, ltb,
  if◌then◌else◌,
}
use civic_loop.Prelude.Int.{ℤ, int_eq, exceeds}
use civic_loop.Prelude.Result.{Result, ok, err, ◌>>=◌, ◌>>◌, refuse, demand}
use civic_loop.Prelude.Table.{find, save}
use civic_loop.Budget.{
  BudgetLedgerRecord, ModelProfile, RoutingPolicy, BudgetPeriod, BudgetReservation, reserved,
  entry_reserved, Database, BudgetError, budget_exhausted, budget_request_conflict, does_not_exist,
  by_month, by_run, create_entry,
}
use civic_loop.Budget.Cost.{month_start, cost, profile_and_policy}
use civic_loop.Budget.Release.{expire_period_reservations}

pub record ReserveRequest : Type 0 where
  pub run_id : ℕ
  pub profile_id : String
  pub profile_revision : ℕ
  pub estimated_input_tokens : ℤ
  pub estimated_output_tokens : ℤ
  pub expires_at : Option ℕ

-- `BudgetPeriod.objects.get_or_create(month=..., defaults=...)`
unfoldable pub get_or_create_period :
    Option BudgetPeriod → RoutingPolicy → ℕ → Database → BudgetPeriod × Database
get_or_create_period (some period) policy month db = (period, db)
get_or_create_period none policy month db =
    let period : BudgetPeriod = record {
      month = month;
      limit_microusd = policy.monthly_limit_microusd;
      reserved_microusd = 0;
      settled_microusd = 0;
    } in
    (period, record db { periods = db.periods ++ period ∷ [] })

unfoldable pub period_for_update :
    RoutingPolicy → ℕ → Database → Result BudgetError (BudgetPeriod × Database)
unfolding get_or_create_period
period_for_update policy now db =
    let (period, db') =
      get_or_create_period (find by_month (month_start now) db.periods) policy (month_start now)
        db in
    if period.limit_microusd == policy.monthly_limit_microusd
    then ok (period, db')
    else err budget_request_conflict

abbrev pub or_default : Option ℕ → ℕ → ℕ
or_default (some t) d = t
or_default none d = d

abbrev pub same_request : BudgetReservation → ReserveRequest → Bool
same_request r q =
    str_eq r.model_profile.profile_id q.profile_id
    && ((r.model_profile.revision == q.profile_revision)
        && (int_eq r.estimated_input_tokens q.estimated_input_tokens
            && int_eq r.estimated_output_tokens q.estimated_output_tokens))

-- The reservation that a request creates, and the ledger entry for it.
abbrev pub new_reservation :
    ReserveRequest → ModelProfile → RoutingPolicy → ℕ → ℕ → BudgetPeriod → BudgetReservation
new_reservation q profile policy cost_microusd now period = record {
  run_id = q.run_id;
  model_profile = profile;
  routing_policy = policy;
  period = period.month;
  estimated_input_tokens = q.estimated_input_tokens;
  estimated_output_tokens = q.estimated_output_tokens;
  reserved_cost_microusd = cost_microusd;
  settled_input_tokens = none;
  settled_output_tokens = none;
  settled_cost_microusd = none;
  status = reserved;
  expires_at = or_default q.expires_at (now + 900_000_000);
}

abbrev pub reserve_entry : ReserveRequest → ModelProfile → ℕ → BudgetLedgerRecord
reserve_entry q profile cost_microusd = record {
  run_id = q.run_id;
  model_profile_id_snapshot = profile.profile_id;
  model_profile_revision = profile.revision;
  entry_type = entry_reserved;
  input_tokens = q.estimated_input_tokens;
  output_tokens = q.estimated_output_tokens;
  cost_microusd = cost_microusd;
}

-- The last part of `reserve_budget`: the month's budget is checked after expiry, and charged.
unfoldable pub hold :
    ReserveRequest
    → ModelProfile
    → RoutingPolicy
    → ℕ
    → ℕ
    → BudgetPeriod
    → Database
    → Result BudgetError (BudgetReservation × Database)
unfolding create_entry
hold q profile policy cost_microusd now period db = do
  refuse
      (ltb period.limit_microusd
        (period.reserved_microusd + period.settled_microusd + cost_microusd))
      budget_exhausted
  ledger ← create_entry (reserve_entry q profile cost_microusd) db.ledger
  ok (
    new_reservation q profile policy cost_microusd now period,
    record db {
      periods =
          save by_month
            (record period { reserved_microusd = period.reserved_microusd + cost_microusd })
            db.periods;
      reservations =
          db.reservations ++ new_reservation q profile policy cost_microusd now period ∷ [];
      ledger = ledger;
    },
  )

unfoldable pub reserve_new :
    ReserveRequest → ℕ → Database → Result BudgetError (BudgetReservation × Database)
reserve_new q now db = do
  (profile, policy) ← profile_and_policy q.profile_id q.profile_revision db
  refuse
      (exceeds q.estimated_input_tokens profile.max_input_tokens
        || exceeds q.estimated_output_tokens profile.max_output_tokens)
      budget_request_conflict
  cost_microusd ← cost profile q.estimated_input_tokens q.estimated_output_tokens
  refuse (ltb policy.per_run_limit_microusd cost_microusd) budget_exhausted
  (period, opened) ← period_for_update policy now db
  (count, swept) ← expire_period_reservations period now opened
  fresh ← demand (find by_month period.month swept.periods) does_not_exist
  hold q profile policy cost_microusd now fresh swept

-- A run that has a reservation gets it back, if the request is the same.
unfoldable pub repeat_or_reserve :
    Option BudgetReservation
    → ReserveRequest
    → ℕ
    → Database
    → Result BudgetError (BudgetReservation × Database)
unfolding reserve_new
repeat_or_reserve (some r) q now db =
    if not (same_request r q) then err budget_request_conflict else ok (r, db)
repeat_or_reserve none q now db = reserve_new q now db

unfoldable pub reserve_budget :
    ReserveRequest → ℕ → Database → Result BudgetError (BudgetReservation × Database)
unfolding repeat_or_reserve
reserve_budget q now db = repeat_or_reserve (find by_run q.run_id db.reservations) q now db

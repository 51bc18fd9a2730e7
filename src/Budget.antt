-- ===== src/Budget.antt =====
-- The tables of the model budget (backend/agents/models.py) that backend/agents/budgets.py reads and
-- writes, and its errors. A foreign key to an immutable row (a profile, a routing policy) is the row
-- itself; a period is addressed by its month, a reservation by its run. Times are microseconds since
-- 1970 in UTC, dates are days since 1970. Tokens are Python integers, which a caller may pass negative.
pub mod Cost
pub mod Price
pub mod Reserve
pub mod Settle
pub mod Release
pub mod Accounts
mod Tests
use civic_loop.Prelude.{
  ℕ, String, Bool, true, false, Option, List, ◌==◌, ◌&&◌, any, ◌++◌, [], ◌∷◌, if◌then◌else◌, ltb,
  ◌-◌,
}
use civic_loop.Prelude.Int.{ℤ}
use civic_loop.Prelude.Result.{Result, ok, err}

pub data Purpose : Type 0 where
  workflow evaluation_judge fallback : Purpose

abbrev pub same_purpose : Purpose → Purpose → Bool
same_purpose workflow workflow = true
same_purpose evaluation_judge evaluation_judge = true
same_purpose fallback fallback = true
same_purpose _ _ = false

pub record ModelProfile : Type 0 where
  pub pk : ℕ
  pub profile_id : String
  pub revision : ℕ
  pub purpose : Purpose
  pub max_input_tokens : ℕ
  pub max_output_tokens : ℕ
  pub input_price_microusd_per_million : Option ℕ
  pub output_price_microusd_per_million : Option ℕ

pub record RoutingPolicy : Type 0 where
  pub purpose : Purpose
  pub model_profile : ℕ
  pub per_run_limit_microusd : ℕ
  pub monthly_limit_microusd : ℕ

pub record BudgetPeriod : Type 0 where
  pub month : ℕ
  pub limit_microusd : ℕ
  pub reserved_microusd : ℕ
  pub settled_microusd : ℕ

pub data ReservationStatus : Type 0 where
  reserved settled released : ReservationStatus

pub record BudgetReservation : Type 0 where
  pub run_id : ℕ
  pub model_profile : ModelProfile
  pub routing_policy : RoutingPolicy
  pub period : ℕ
  pub estimated_input_tokens : ℤ
  pub estimated_output_tokens : ℤ
  pub reserved_cost_microusd : ℕ
  pub settled_input_tokens : Option ℤ
  pub settled_output_tokens : Option ℤ
  pub settled_cost_microusd : Option ℕ
  pub status : ReservationStatus
  pub expires_at : ℕ

pub data EntryType : Type 0 where
  entry_reserved entry_settled entry_released adjustment : EntryType

pub record BudgetLedgerRecord : Type 0 where
  pub run_id : ℕ
  pub model_profile_id_snapshot : String
  pub model_profile_revision : ℕ
  pub entry_type : EntryType
  pub input_tokens : ℤ
  pub output_tokens : ℤ
  pub cost_microusd : ℕ

pub data RunStatus : Type 0 where
  queued running succeeded failed cancelled : RunStatus

-- What expiry reads of an agent run. `admission_disabled` is that of its control, false without one.
pub record AgentRun : Type 0 where
  pub id : ℕ
  pub hermes_lane : Bool
  pub status : RunStatus
  pub admission_disabled : Bool

pub record Database : Type 0 where
  pub profiles : List ModelProfile
  pub policies : List RoutingPolicy
  pub periods : List BudgetPeriod
  pub reservations : List BudgetReservation
  pub ledger : List BudgetLedgerRecord
  pub runs : List AgentRun

-- The three exceptions of the module, and two that only a broken table could raise.
pub data BudgetError : Type 0 where
  unknown_model_price budget_exhausted budget_request_conflict : BudgetError
  integrity_error does_not_exist : BudgetError

abbrev pub by_month : BudgetPeriod → ℕ
by_month p = p.month

abbrev pub by_run : BudgetReservation → ℕ
by_run r = r.run_id

abbrev pub same_entry : EntryType → EntryType → Bool
same_entry entry_reserved entry_reserved = true
same_entry entry_settled entry_settled = true
same_entry entry_released entry_released = true
same_entry adjustment adjustment = true
same_entry _ _ = false

-- Whether the ledger has an entry of this type for the run.
unfoldable pub recorded : ℕ → EntryType → List BudgetLedgerRecord → Bool
recorded run kind ledger =
    any (λ (e : BudgetLedgerRecord). (e.run_id == run) && same_entry e.entry_type kind) ledger

-- `BudgetLedgerRecord.objects.create` under the constraint agents_unique_run_ledger_entry_type
unfoldable pub create_entry :
    BudgetLedgerRecord → List BudgetLedgerRecord → Result BudgetError (List BudgetLedgerRecord)
create_entry e ledger =
    if recorded e.run_id e.entry_type ledger then err integrity_error else ok (ledger ++ e ∷ [])

-- `reserved_microusd -= cost` under the constraint agents_period_reserved_nonnegative
unfoldable pub take_back : ℕ → ℕ → Result BudgetError ℕ
take_back held cost = if ltb held cost then err integrity_error else ok (held - cost)

-- ===== src/Budget/Accounts.antt =====
-- The accounts of the budget: what the totals of a period, the reservations and the ledger owe one
-- another, for backend/agents/budgets.py.
pub mod Post
pub mod Sweep
pub mod Expiry
pub mod Held
pub mod Outcomes
pub mod Admission
pub mod ExpireAll
pub mod Fresh
pub mod Calls
use civic_loop.Prelude.Result.{◌>>◌, refuse, Result, ok, err, ◌>>=◌, Returns}
use civic_loop.Prelude.{
  subst, refl, ℕ, ◌+◌, ◌≤◌, ◌≡◌, Bool, true, false, Option, none, some, List, ◌==◌, ◌&&◌, total,
  is_some, if◌then◌else◌,
}
use civic_loop.Prelude.Table.{find, Distinct}
use civic_loop.Budget.{
  BudgetPeriod, BudgetReservation, ReservationStatus, BudgetError, integrity_error, does_not_exist,
  settled, released, EntryType, entry_reserved, entry_settled, entry_released, Database, by_month,
  by_run, recorded,
}
use civic_loop.Budget.Release.{is_reserved}

abbrev pub is_settled : ReservationStatus → Bool
is_settled settled = true
is_settled _ = false

abbrev pub is_released : ReservationStatus → Bool
is_released released = true
is_released _ = false

abbrev pub or_zero : Option ℕ → ℕ
or_zero none = 0
or_zero (some n) = n

-- What a reservation holds of a month's budget, and what it has spent of it.
abbrev pub held : ℕ → BudgetReservation → ℕ
held month r = if (r.period == month) && is_reserved r.status then r.reserved_cost_microusd else 0

abbrev pub spent : ℕ → BudgetReservation → ℕ
spent month r =
    if (r.period == month) && is_settled r.status then or_zero r.settled_cost_microusd else 0

-- The ledger entries that a run has, by its reservation.
abbrev pub entries : EntryType → Option BudgetReservation → Bool
entries entry_reserved (some r) = true
entries entry_settled (some r) = is_settled r.status
entries entry_released (some r) = is_released r.status
entries _ _ = false

abbrev pub PeriodBalances : List BudgetReservation → ℕ → BudgetPeriod → Type 0
PeriodBalances reservations month p =
    (p.reserved_microusd ≡ total (held month) reservations)
    × (p.settled_microusd ≡ total (spent month) reservations)
    × (p.reserved_microusd + p.settled_microusd ≤ p.limit_microusd)

-- Every period's totals are the sums over its reservations, within its limit; every reservation has
-- its period; the ledger has exactly the entries that the reservations call for.
pub record IsBalanced (db : Database) : Type 0 where
  pub periods_balance :
      (month : ℕ) (p : BudgetPeriod)
      → find by_month month db.periods ≡ some p
      → PeriodBalances db.reservations month p
  pub homed :
      (run : ℕ) (r : BudgetReservation)
      → find by_run run db.reservations ≡ some r
      → is_some (find by_month r.period db.periods) ≡ true
  pub entered :
      (run : ℕ) (kind : EntryType)
      → recorded run kind db.ledger ≡ entries kind (find by_run run db.reservations)
  pub distinct : Distinct by_run db.reservations
  pub months_distinct : Distinct by_month db.periods

-- The operation returns a value that satisfies the predicate, or raises one of the three errors of
-- the module: no constraint of the tables is broken and no row that it reads is missing.
abbrev pub IsRefusal : BudgetError → Type 0
IsRefusal integrity_error = ⊥
IsRefusal does_not_exist = ⊥
IsRefusal _ = Unit

abbrev pub Sound {ℓ} : {A : Type ℓ} → (A → Type 0) → Result BudgetError A → Type 0
Sound P (ok a) = P a
Sound P (err e) = IsRefusal e

pub Sound-bind {ℓ κ} :
    {A : Type ℓ} {B : Type κ} (P : A → Type 0) (Q : B → Type 0) (m : Result BudgetError A)
    (f : A → Result BudgetError B)
    → Sound P m
    → ((a : A) → P a → Sound Q (f a))
    → Sound Q (m >>= f)
Sound-bind P Q (ok a) f h k = k a h
Sound-bind P Q (err e) f h k = h

pub Returns-Sound {ℓ} :
    {A : Type ℓ} (P : A → Type 0) (m : Result BudgetError A) → Returns P m → Sound P m
Returns-Sound P (ok a) h = h
Returns-Sound P (err e) h = elim h [ ]

-- `if bad: raise e`, with the rest proved where the test fails.
pub Sound-refuse {ℓ} :
    {A : Type ℓ} (Q : A → Type 0) (bad : Bool) (e : BudgetError) (k : Result BudgetError A)
    → IsRefusal e
    → (bad ≡ false → Sound Q k)
    → Sound Q (refuse bad e >> k)
Sound-refuse Q true e k h rest = h
Sound-refuse Q false e k h rest = rest refl

pub Sound-map {ℓ} :
    {A : Type ℓ} (P Q : A → Type 0) (m : Result BudgetError A)
    → Sound P m
    → ((a : A) → P a → Q a)
    → Sound Q m
Sound-map P Q (ok a) h k = k a h
Sound-map P Q (err e) h k = h

pub Sound-ok {ℓ} :
    {A : Type ℓ} (P : A → Type 0) (m : Result BudgetError A) {a : A} → Sound P m → m ≡ ok a → P a
Sound-ok P m h e = subst (Sound P) e h

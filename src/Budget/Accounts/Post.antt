-- ===== src/Budget/Accounts/Post.antt =====
-- One booking: a reservation and its period are saved and an entry is added to the ledger.
use civic_loop.Prelude.{ℕ, ◌+◌, ◌≤◌, ◌≡◌, true, some, List, [], ◌∷◌, ◌++◌, ◌==◌, ◌||◌, ◌&&◌, arith}
use civic_loop.Prelude.Table.{Distinct-save, find, save, find-save, total-save}
use civic_loop.Budget.{
  BudgetPeriod, BudgetReservation, EntryType, BudgetLedgerRecord, Database, by_month, by_run,
  recorded, same_entry,
}
use civic_loop.Budget.Accounts.{is_some, IsBalanced, PeriodBalances, held, spent, entries}

pub recorded-append :
    (run : ℕ) (kind : EntryType) (e : BudgetLedgerRecord) (ledger : List BudgetLedgerRecord)
    → recorded run kind (ledger ++ e ∷ [])
      ≡ (recorded run kind ledger || ((e.run_id == run) && same_entry e.entry_type kind))
unfolding recorded
recorded-append run kind e [] = ground arith
recorded-append run kind e (x ∷ xs) = ground (arith, recorded-append run kind e xs)

module _ (db : Database) (b : IsBalanced db) (r r' : BudgetReservation) (p p' : BudgetPeriod)
    (e : BudgetLedgerRecord) (found : find by_run r'.run_id db.reservations ≡ some r)
    (same_period : r'.period ≡ r.period) (opened : find by_month p'.month db.periods ≡ some p)
    (month : p'.month ≡ r.period) (limit : p'.limit_microusd ≡ p.limit_microusd)
    (holds : p'.reserved_microusd + held r.period r ≡ p.reserved_microusd + held r.period r')
    (spends : p'.settled_microusd + spent r.period r ≡ p.settled_microusd + spent r.period r')
    (within : p'.reserved_microusd + p'.settled_microusd ≤ p'.limit_microusd)
    (entry : e.run_id ≡ r'.run_id)
    (kinds : (kind : EntryType)
      → entries kind (some r') ≡ (entries kind (some r) || same_entry e.entry_type kind)) where
  post_period :
      (m : ℕ) (q : BudgetPeriod)
      → find by_month m (save by_month p' db.periods) ≡ some q
      → PeriodBalances (save by_run r' db.reservations) m q
  post_period m q h = ground (
    arith,
    find-save by_month m p' db.periods,
    b.periods_balance m p,
    b.periods_balance m q,
    total-save by_run (held m) r' r db.reservations,
    total-save by_run (spent m) r' r db.reservations,
  )

  post_homed :
      (run : ℕ) (s : BudgetReservation)
      → find by_run run (save by_run r' db.reservations) ≡ some s
      → is_some (find by_month s.period (save by_month p' db.periods)) ≡ true
  post_homed run s h = ground (
    arith,
    find-save by_run run r' db.reservations,
    find-save by_month s.period p' db.periods,
    b.homed run s,
    b.homed run r,
  )

  post_entered :
      (run : ℕ) (kind : EntryType)
      → recorded run kind (db.ledger ++ e ∷ [])
        ≡ entries kind (find by_run run (save by_run r' db.reservations))
  post_entered run kind = ground (
    arith,
    find-save by_run run r' db.reservations,
    recorded-append run kind e db.ledger,
    b.entered run kind,
    kinds kind,
  )

  pub post-IsBalanced : IsBalanced (record db {
    periods = save by_month p' db.periods;
    reservations = save by_run r' db.reservations;
    ledger = db.ledger ++ e ∷ [];
  })
  post-IsBalanced = record {
    periods_balance = post_period;
    homed = post_homed;
    entered = post_entered;
    distinct = Distinct-save by_run r' db.reservations b.distinct;
    months_distinct = Distinct-save by_month p' db.periods b.months_distinct;
  }

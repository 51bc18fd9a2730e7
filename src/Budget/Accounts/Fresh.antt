-- ===== src/Budget/Accounts/Fresh.antt =====
-- A new reservation: `_period_for_update` and the last part of `reserve_budget` of
-- backend/agents/budgets.py.
use civic_loop.Prelude.Table.Rows.{All-find}
use civic_loop.Prelude.Table.{save, find-save, Distinct-save, find, find-append, Distinct-append}
use civic_loop.Prelude.{
  ◌+◌, ◌≤◌, some, total-append, ℕ, ◌≡◌, refl, ap, inl, inr, true, none, List, [], ◌∷◌, ◌++◌, arith,
  ◌==◌, ==_iff, Bool-cases, is_some, total, All,
}
use civic_loop.Budget.{
  reserved, BudgetPeriod, BudgetReservation, BudgetLedgerRecord, EntryType, Database, by_month,
  by_run, RoutingPolicy, recorded, entry_reserved,
}
use civic_loop.Budget.Accounts.{IsBalanced, PeriodBalances, held, spent, entries}
use civic_loop.Budget.Accounts.Post.{recorded-append}

-- A month with no period has no reservation, so nothing is held or spent in it.
total-absent :
    (month : ℕ) (periods : List BudgetPeriod) (rs : List BudgetReservation)
    → All (λ (r : BudgetReservation). is_some (find by_month r.period periods) ≡ true) rs
    → find by_month month periods ≡ none
    → (total (held month) rs ≡ 0) × (total (spent month) rs ≡ 0)
total-absent month periods [] h absent = (refl, refl)
total-absent month periods (r ∷ rs) h absent =
    let ih = total-absent month periods rs h.1 absent in
    elim (Bool-cases (r.period == month)) [
      | inl same ↦
          absurd
            (cc (h.0, absent, ap (λ m. find by_month m periods) ((==_iff r.period month).0 same)))
      | inr apart ↦ rw apart (omega (arith, ih.0), omega (arith, ih.1))
    ]

abbrev pub opened : RoutingPolicy → ℕ → BudgetPeriod
opened policy month = record {
  month = month;
  limit_microusd = policy.monthly_limit_microusd;
  reserved_microusd = 0;
  settled_microusd = 0;
}

module _ (policy : RoutingPolicy) (month : ℕ) (db : Database) (b : IsBalanced db)
    (absent : find by_month month db.periods ≡ none) where
  nothing : (total (held month) db.reservations ≡ 0) × (total (spent month) db.reservations ≡ 0)
  nothing =
      total-absent month db.periods db.reservations
        (All-find by_run
          (λ (r : BudgetReservation). is_some (find by_month r.period db.periods) ≡ true)
          db.reservations b.distinct b.homed)
        absent

  pub opened-IsBalanced :
      IsBalanced (record db { periods = db.periods ++ opened policy month ∷ [] })
  opened-IsBalanced = record {
    periods_balance = λ m q h. ground (
      arith,
      find-append by_month m (opened policy month) db.periods,
      b.periods_balance m q,
      nothing,
    );
    homed = λ run r h.
        ground
          (arith, find-append by_month r.period (opened policy month) db.periods, b.homed run r h);
    entered = b.entered;
    distinct = b.distinct;
    months_distinct =
        Distinct-append by_month (opened policy month) db.periods absent b.months_distinct;
  }

-- The database once a reservation is added at its cost.
abbrev pub taken : BudgetReservation → BudgetLedgerRecord → BudgetPeriod → Database → Database
taken r e p db = record db {
  periods =
      save by_month
        (record p { reserved_microusd = p.reserved_microusd + r.reserved_cost_microusd })
        db.periods;
  reservations = db.reservations ++ r ∷ [];
  ledger = db.ledger ++ e ∷ [];
}

module _ (r : BudgetReservation) (e : BudgetLedgerRecord) (p : BudgetPeriod) (db : Database)
    (b : IsBalanced db) (loaded : find by_month p.month db.periods ≡ some p)
    (absent : find by_run r.run_id db.reservations ≡ none) (home : r.period ≡ p.month)
    (active : r.status ≡ reserved) (entry : e.run_id ≡ r.run_id)
    (kind_is : e.entry_type ≡ entry_reserved)
    (fits : p.reserved_microusd + p.settled_microusd + r.reserved_cost_microusd
      ≤ p.limit_microusd) where
  taken_entered :
      (run : ℕ) (kind : EntryType)
      → recorded run kind (db.ledger ++ e ∷ [])
        ≡ entries kind (find by_run run (db.reservations ++ r ∷ []))
  taken_entered run kind = ground (
    arith,
    find-append by_run run r db.reservations,
    recorded-append run kind e db.ledger,
    b.entered run kind,
  )

  taken_periods :
      (m : ℕ) (q : BudgetPeriod)
      → find by_month m (taken r e p db).periods ≡ some q
      → PeriodBalances (db.reservations ++ r ∷ []) m q
  taken_periods m q h = ground (
    arith,
    find-save by_month m
        (record p { reserved_microusd = p.reserved_microusd + r.reserved_cost_microusd })
        db.periods,
    b.periods_balance m p,
    b.periods_balance m q,
    total-append (held m) db.reservations (r ∷ []),
    total-append (spent m) db.reservations (r ∷ []),
  )

  taken_homed :
      (run : ℕ) (s : BudgetReservation)
      → find by_run run (db.reservations ++ r ∷ []) ≡ some s
      → is_some (find by_month s.period (taken r e p db).periods) ≡ true
  taken_homed run s h = ground (
    arith,
    find-append by_run run r db.reservations,
    find-save by_month s.period
        (record p { reserved_microusd = p.reserved_microusd + r.reserved_cost_microusd })
        db.periods,
    b.homed run s,
    loaded,
  )

  pub taken-IsBalanced : IsBalanced (taken r e p db)
  taken-IsBalanced = record {
    periods_balance = taken_periods;
    homed = taken_homed;
    entered = taken_entered;
    distinct = Distinct-append by_run r db.reservations absent b.distinct;
    months_distinct = Distinct-save by_month _ db.periods b.months_distinct;
  }

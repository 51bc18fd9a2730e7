-- ===== src/Budget/Accounts/Outcomes.antt =====
-- What `settle_budget`, `release_budget` and `charge_reserved_budget` of backend/agents/budgets.py
-- answer and leave, on every branch.
use civic_loop.Prelude.Int.{exceeds, int_eq_refl, negsuc, ℤ, pos}
use civic_loop.Prelude.Table.{find-save, find, key-find}
use civic_loop.Prelude.Result.{Result, Returns}
use civic_loop.Prelude.{
  if◌then◌else◌, ap, ◌∙◌, ltb, subst, not, ◌||◌, Option, none, Bool-cases, ℕ, ◌≡◌, refl, sym, inl,
  inr, true, some, arith, Option-cases,
}
use civic_loop.Budget.{
  BudgetPeriod, BudgetReservation, ReservationStatus, reserved, settled, released, Database,
  by_month, by_run, ModelProfile, BudgetError,
}
use civic_loop.Budget.Cost.{cost, priced_cost}
use civic_loop.Budget.Release.{
  is_reserved, charged, release_budget, charge_reserved_budget, release_held, charge_held,
  when_reserved,
}
use civic_loop.Budget.Settle.{
  column_eq, settled_as, settle_held, book, settle_by_status, settle_budget,
}
use civic_loop.Budget.Accounts.{IsBalanced, Sound, Sound-bind, Sound-map}
use civic_loop.Budget.Accounts.Sweep.{freed}
use civic_loop.Budget.Accounts.Held.{
  Answers, book-Sound, release_held_lem, released-IsBalanced, charge_held_lem,
}

priced_cost-Sound :
    (input_price output_price : Option ℕ) (i o : ℤ)
    → Sound (λ _. Unit) (priced_cost input_price output_price i o)
priced_cost-Sound (some a) (some b) (pos i) (pos o) = tt
priced_cost-Sound (some a) (some b) (pos i) (negsuc o) = tt
priced_cost-Sound (some a) (some b) (negsuc i) o = tt
priced_cost-Sound (some a) none i o = tt
priced_cost-Sound none b i o = tt

pub cost-Sound : (profile : ModelProfile) (i o : ℤ) → Sound (λ _. Unit) (cost profile i o)
unfolding cost
cost-Sound profile i o = priced_cost-Sound _ _ i o

-- What a settlement answers: the stored reservation, settled with the usage that was reported.
abbrev pub SettledAs : ℕ → ℤ → ℤ → BudgetReservation × Database → Type 0
SettledAs run i o out =
    IsBalanced out.1
    × (find by_run run out.1.reservations ≡ some out.0)
    × (out.0.status ≡ settled)
    × (column_eq out.0.settled_input_tokens i ≡ true)
    × (column_eq out.0.settled_output_tokens o ≡ true)

module _ (r : BudgetReservation) (run : ℕ) (db : Database) (b : IsBalanced db)
    (found : find by_run run db.reservations ≡ some r) where
  same_run : r.run_id ≡ run
  same_run = key-find by_run run db.reservations found

  itself : find by_run r.run_id db.reservations ≡ some r
  itself = subst (λ k. find by_run k db.reservations ≡ some r) (sym same_run) found

  home : (p : BudgetPeriod) × (find by_month r.period db.periods ≡ some p)
  home = elim (Option-cases (find by_month r.period db.periods)) [
    | inl lost ↦ absurd (ground (arith, b.homed run r found, lost))
    | inr there ↦ there
  ]

module _ (r : BudgetReservation) (run : ℕ) (i o : ℤ) (db : Database) (b : IsBalanced db)
    (found : find by_run run db.reservations ≡ some r) where
  settled_answer :
      (actual : ℕ) (p : BudgetPeriod)
      → find by_month r.period db.periods ≡ some p
      → r.status ≡ reserved
      → Sound (SettledAs run i o) (book r i o actual p db)
  settled_answer actual p loaded s =
      Sound-map (Answers (settled_as r i o actual)) (SettledAs run i o) (book r i o actual p db)
        (book-Sound r p db b (itself r run db b found) (ground arith) loaded i o actual)
        λ out a. (
          a.0,
          subst (λ k. find by_run k out.1.reservations ≡ some out.0) (same_run r run db b found)
              (a.2 ∙ ap some (sym a.1)),
          ap (λ (t : BudgetReservation). t.status) a.1,
          ap (λ (t : BudgetReservation). column_eq t.settled_input_tokens i) a.1 ∙ int_eq_refl i,
          ap (λ (t : BudgetReservation). column_eq t.settled_output_tokens o) a.1 ∙ int_eq_refl o,
        )

  settle_held-Sound : r.status ≡ reserved → Sound (SettledAs run i o) (settle_held r i o db)
  unfolding settle_held
  settle_held-Sound s =
      let (p, loaded) = home r run db b found in
      Sound-bind (λ _. Unit) (SettledAs run i o) (cost r.model_profile i o) _
        (cost-Sound r.model_profile i o)
        λ actual _.
          elim (Bool-cases (
            exceeds i r.model_profile.max_input_tokens
            || exceeds o r.model_profile.max_output_tokens)) [
              | inl over ↦ rw over tt
              | inr fits ↦
                  rw fits (elim (Bool-cases (ltb r.routing_policy.per_run_limit_microusd actual)) [
                    | inl over ↦ rw over tt
                    | inr fits ↦ rw (fits, loaded) (settled_answer actual p loaded s)
                  ])
            ]

  settle_by_status-Sound :
      (s : ReservationStatus)
      → r.status ≡ s
      → Sound (SettledAs run i o) (settle_by_status s r i o db)
  unfolding settle_by_status
  settle_by_status-Sound released e = tt
  settle_by_status-Sound settled e =
      elim (Bool-cases
        (not (column_eq r.settled_input_tokens i) || not (column_eq r.settled_output_tokens o))) [
          | inl other ↦ rw other tt
          | inr same ↦ rw same (b, found, e, ground arith, ground arith)
        ]
  settle_by_status-Sound reserved e = settle_held-Sound e

-- From balanced accounts `settle_budget` either answers the run's stored reservation, settled with the
-- reported usage, in balanced accounts, or raises one of the module's own errors: no constraint of
-- the tables is broken.
pub settle_budget-Sound :
    (run : ℕ) (i o : ℤ) (db : Database)
    → IsBalanced db
    → Sound (SettledAs run i o) (settle_budget run i o db)
unfolding settle_budget
settle_budget-Sound run i o db b = elim (Option-cases (find by_run run db.reservations)) [
  | inl missing ↦ rw missing tt
  | inr (r, found) ↦ rw found (settle_by_status-Sound r run i o db b found r.status refl)
]

abbrev pub act_on :
    (BudgetReservation → BudgetReservation) → Option BudgetReservation → Option BudgetReservation
act_on f none = none
act_on f (some r) = some (if is_reserved r.status then f r else r)

-- The operation has applied `f` to the run's reservation, if it was reserved, and answers what is stored.
abbrev pub Acted :
    ℕ
    → (BudgetReservation → BudgetReservation)
    → Database
    → Option BudgetReservation × Database
    → Type 0
Acted run f db out =
    IsBalanced out.1
    × (out.0 ≡ act_on f (find by_run run db.reservations))
    × (find by_run run out.1.reservations ≡ out.0)

module _ (r : BudgetReservation) (run : ℕ) (db : Database) (b : IsBalanced db)
    (found : find by_run run db.reservations ≡ some r) (active : is_reserved r.status ≡ true) where
  release_held-Acted : Returns (Acted run freed db) (release_held r db)
  release_held-Acted =
      let (p, loaded) = home r run db b found in
      let own = itself r run db b found in
      rw (release_held_lem r p db b own active loaded) (
        released-IsBalanced r p db b own active loaded,
        ground (arith, found, active),
        find-save by_run run (freed r) db.reservations
            ∙ ground (arith, found, same_run r run db b found),
      )

  charge_held-Acted : Returns (Acted run charged db) (charge_held r db)
  charge_held-Acted =
      let (p, loaded) = home r run db b found in
      let (d, done, balanced, kept) =
        charge_held_lem r p db b (itself r run db b found) active loaded in
      rw done (
        balanced,
        ground (arith, found, active),
        subst (λ k. find by_run k d.reservations ≡ some (charged r)) (same_run r run db b found)
            kept,
      )

module _ (run : ℕ) (db : Database) (b : IsBalanced db) (f : BudgetReservation → BudgetReservation)
    (act : BudgetReservation → Database → Result BudgetError (Option BudgetReservation × Database))
    (acts : (r : BudgetReservation)
      → find by_run run db.reservations ≡ some r
      → is_reserved r.status ≡ true
      → Returns (Acted run f db) (act r db)) where
  when_reserved-Acted :
      (o : Option BudgetReservation)
      → find by_run run db.reservations ≡ o
      → Returns (Acted run f db) (when_reserved act o db)
  when_reserved-Acted none missing = (b, ground (arith, missing), missing)
  when_reserved-Acted (some r) found = elim (Bool-cases (is_reserved r.status)) [
    | inl active ↦ rw active (acts r found active)
    | inr past ↦ rw past (b, ground (arith, found, past), found)
  ]

-- From balanced accounts `release_budget` never fails: a reserved reservation is released, any other
-- and an unknown run are left, the answer is the stored reservation, and the accounts balance.
pub release_budget-Acted :
    (run : ℕ) (db : Database) → IsBalanced db → Returns (Acted run freed db) (release_budget run db)
unfolding release_budget
release_budget-Acted run db b =
    when_reserved-Acted run db b freed release_held
      (λ r found active. release_held-Acted r run db b found active)
      (find by_run run db.reservations) refl

-- From balanced accounts `charge_reserved_budget` never fails: a reserved reservation is settled at
-- its whole reserved cost, any other and an unknown run are left, the answer is the stored
-- reservation, and the accounts balance.
pub charge_reserved_budget-Acted :
    (run : ℕ) (db : Database)
    → IsBalanced db
    → Returns (Acted run charged db) (charge_reserved_budget run db)
unfolding charge_reserved_budget
charge_reserved_budget-Acted run db b =
    when_reserved-Acted run db b charged charge_held
      (λ r found active. charge_held-Acted r run db b found active)
      (find by_run run db.reservations) refl

-- ===== src/Budget/Accounts/Calls.antt =====
-- Any sequence of calls of backend/agents/budgets.py, and calls that are made again.
use civic_loop.Prelude.Int.{int_eq-eq, ℤ, int_eq}
use civic_loop.Prelude.Table.{find}
use civic_loop.Prelude.Result.{ok, err, Returns-ok}
use civic_loop.Prelude.{ap, true, none, ℕ, ◌≡◌, ◌∙◌, ◌&&◌, Option, some, List, arith, if◌then◌else◌}
use civic_loop.Budget.{
  BudgetReservation, Database, AgentRun, ModelProfile, RoutingPolicy, by_run, reserved,
  budget_request_conflict,
}
use civic_loop.Budget.Release.{charged, release_budget, charge_reserved_budget, expire_reservations}
use civic_loop.Budget.Settle.{column_eq, settle_by_status, settle_budget}
use civic_loop.Budget.Reserve.{ReserveRequest, repeat_or_reserve, reserve_budget}
use civic_loop.Budget.Accounts.{IsBalanced, Sound-ok}
use civic_loop.Budget.Accounts.Sweep.{freed}
use civic_loop.Budget.Accounts.Outcomes.{
  SettledAs, settle_budget-Sound, Acted, release_budget-Acted, charge_reserved_budget-Acted,
}
use civic_loop.Budget.Accounts.Admission.{Admitted, reserve_budget-Sound}
use civic_loop.Budget.Accounts.ExpireAll.{ReleasesDue, expire_reservations-ReleasesDue}

-- A committed call, or a change by other code to the tables that the budget only reads.
pub data Step : Database → Database → Type 0 where
  reserves :
      (q : ReserveRequest) (now : ℕ) {db db' : Database} {r : BudgetReservation}
      → reserve_budget q now db ≡ ok (r, db')
      → Step db db'
  settles :
      (run : ℕ) (i o : ℤ) {db db' : Database} {r : BudgetReservation}
      → settle_budget run i o db ≡ ok (r, db')
      → Step db db'
  releases :
      (run : ℕ) {db db' : Database} {r : Option BudgetReservation}
      → release_budget run db ≡ ok (r, db')
      → Step db db'
  charges :
      (run : ℕ) {db db' : Database} {r : Option BudgetReservation}
      → charge_reserved_budget run db ≡ ok (r, db')
      → Step db db'
  expires :
      (now : ℕ) {db db' : Database} {n : ℕ} → expire_reservations now db ≡ ok (n, db') → Step db db'
  runs_change : (db : Database) (runs : List AgentRun) → Step db (record db { runs = runs })
  catalog_changes :
      (db : Database) (profiles : List ModelProfile) (policies : List RoutingPolicy)
      → Step db (record db { profiles = profiles; policies = policies })

pub data Reach (start : Database) : Database → Type 0 where
  here : Reach start start
  next : {db db' : Database} → Reach start db → Step db db' → Reach start db'

Step-IsBalanced : {db db' : Database} → Step db db' → IsBalanced db → IsBalanced db'
Step-IsBalanced (reserves q now {db} e) b =
    (Sound-ok _ (reserve_budget q now db) (reserve_budget-Sound q now db b) e).0.0
Step-IsBalanced (settles run i o {db} e) b =
    (Sound-ok (SettledAs run i o) _ (settle_budget-Sound run i o db b) e).0
Step-IsBalanced (releases run {db} e) b =
    (Returns-ok (Acted run freed db) _ (release_budget-Acted run db b) e).0
Step-IsBalanced (charges run {db} e) b =
    (Returns-ok (Acted run charged db) _ (charge_reserved_budget-Acted run db b) e).0
Step-IsBalanced (expires now {db} e) b =
    (Returns-ok (ReleasesDue now db) _ (expire_reservations-ReleasesDue now db b) e).0
Step-IsBalanced (runs_change db runs) b = record {
  periods_balance = b.periods_balance;
  homed = b.homed;
  entered = b.entered;
  distinct = b.distinct;
  months_distinct = b.months_distinct;
}
Step-IsBalanced (catalog_changes db profiles policies) b = record {
  periods_balance = b.periods_balance;
  homed = b.homed;
  entered = b.entered;
  distinct = b.distinct;
  months_distinct = b.months_distinct;
}

-- Whatever calls are made from balanced accounts, in whatever order, the accounts balance: each
-- period's totals are the sums over its reservations and stay within its limit.
pub Reach-IsBalanced : {start db : Database} → Reach start db → IsBalanced start → IsBalanced db
Reach-IsBalanced here b = b
Reach-IsBalanced (next r s) b = Step-IsBalanced s (Reach-IsBalanced r b)

-- A reservation that was granted is granted again to the same request, at any later time, and the
-- second call changes nothing.
reserve_budget_again :
    (q : ReserveRequest) (now later : ℕ) (db db' : Database) (r : BudgetReservation)
    → IsBalanced db
    → reserve_budget q now db ≡ ok (r, db')
    → reserve_budget q later db' ≡ ok (r, db')
unfolding reserve_budget repeat_or_reserve
reserve_budget_again q now later db db' r b e =
    let a : Admitted q (r, db') =
      (Sound-ok _ (reserve_budget q now db) (reserve_budget-Sound q now db b) e).0 in
    rw (a.1, a.2)

column_eq-column_eq :
    (stored : Option ℤ) (i i' : ℤ) → column_eq stored i ≡ true → column_eq stored i' ≡ int_eq i i'
column_eq-column_eq none i i' h = cc
column_eq-column_eq (some s) i i' h = ap (λ z. int_eq z i') (int_eq-eq s i h)

-- A settlement that is reported again, with the same usage, answers the same and changes nothing; with
-- another usage it is refused.
settle_budget_again :
    (run : ℕ) (i o i' o' : ℤ) (db db' : Database) (r : BudgetReservation)
    → IsBalanced db
    → settle_budget run i o db ≡ ok (r, db')
    → settle_budget run i' o' db'
      ≡ (if int_eq i i' && int_eq o o' then ok (r, db') else err budget_request_conflict)
unfolding settle_budget settle_by_status
settle_budget_again run i o i' o' db db' r b e =
    let a : SettledAs run i o (r, db') =
      Sound-ok (SettledAs run i o) _ (settle_budget-Sound run i o db b) e in
    rw (a.1, a.2)
      (ground (
        arith,
        column_eq-column_eq r.settled_input_tokens i i' a.3,
        column_eq-column_eq r.settled_output_tokens o o' a.4,
      ))

-- Once a reservation is released its run cannot be settled.
settle_budget-release_budget :
    (run : ℕ) (i o : ℤ) (db db' : Database) (r : BudgetReservation)
    (answer : Option BudgetReservation)
    → IsBalanced db
    → find by_run run db.reservations ≡ some r
    → r.status ≡ reserved
    → release_budget run db ≡ ok (answer, db')
    → settle_budget run i o db' ≡ err budget_request_conflict
unfolding settle_budget settle_by_status
settle_budget-release_budget run i o db db' r answer b found active e =
    let a : Acted run freed db (answer, db') =
      Returns-ok (Acted run freed db) _ (release_budget-Acted run db b) e in
    let gone : find by_run run db'.reservations ≡ some (freed r) =
      a.2 ∙ (a.1 ∙ ground (arith, found, active)) in
    rw gone

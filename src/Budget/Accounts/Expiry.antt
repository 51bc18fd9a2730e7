-- ===== src/Budget/Accounts/Expiry.antt =====
-- Expiry of one period: `_expire_period_reservations` of backend/agents/budgets.py.
use civic_loop.Prelude.Table.Rows.{save_each, Distinct-keep, Rows-keep, save_each-keep}
use civic_loop.Prelude.Table.{find, save, find-save, save_self}
use civic_loop.Prelude.Result.{ok, ◌>>=◌, Returns, Returns-bind}
use civic_loop.Prelude.{
  ℕ, ◌≡◌, refl, ap, ◌∙◌, ◌≢◌, inl, inr, some, List, [], ◌∷◌, map, arith, Bool-cases, length, keep,
  if◌then◌else◌,
}
use civic_loop.Budget.{BudgetPeriod, BudgetReservation, Database, by_month, by_run}
use civic_loop.Budget.Release.{is_due, release_all, save_if_any, expire_period_reservations}
use civic_loop.Budget.Accounts.{IsBalanced}
use civic_loop.Budget.Accounts.Sweep.{freed, Due, SweptTo, release_all-SweptTo}

-- What expiry at a time does to one reservation.
abbrev pub swept : ℕ → ℕ → Database → BudgetReservation → BudgetReservation
swept month now db r = if is_due month now db.runs r then freed r else r

pub record Expired (p : BudgetPeriod) (now : ℕ) (db : Database) (out : ℕ × Database) : Type 0 where
  pub balanced : IsBalanced out.1
  pub released : out.1.reservations ≡ map (swept p.month now db) db.reservations
  pub counted : out.0 ≡ length (keep (is_due p.month now db.runs) db.reservations)
  pub others : out.1 ≡ record db {
    periods = out.1.periods;
    reservations = out.1.reservations;
    ledger = out.1.ledger;
  }
  pub elsewhere : (m : ℕ) → m ≢ p.month → find by_month m out.1.periods ≡ find by_month m db.periods
  pub here :
      (q : BudgetPeriod) × (find by_month p.month out.1.periods ≡ some q)
      × (q.month ≡ p.month)
      × (q.limit_microusd ≡ p.limit_microusd)

Due-keep :
    (month now : ℕ) (db : Database) (rs : List BudgetReservation)
    → Due month (keep (is_due month now db.runs) rs)
Due-keep month now db [] = tt
Due-keep month now db (r ∷ rs) = elim (Bool-cases (is_due month now db.runs r)) [
  | inl e ↦ rw e ((ground arith, ground arith), Due-keep month now db rs)
  | inr e ↦ rw e (Due-keep month now db rs)
]

module _ (p : BudgetPeriod) (now : ℕ) (db : Database) (b : IsBalanced db)
    (loaded : find by_month p.month db.periods ≡ some p) where
  -- What is known of the loop's result is what the caller is told, for the rows that were read.
  finish :
      (rs : List BudgetReservation)
      → rs ≡ keep (is_due p.month now db.runs) db.reservations
      → Returns (SweptTo rs p db) (release_all rs p db)
      → Returns (Expired p now db) (do done ← release_all rs p db; ok (save_if_any rs done))
  unfolding save_if_any release_all
  finish [] e h = record {
    balanced = b;
    released =
        ap (λ l. save_each by_run freed l db.reservations) e
        ∙ save_each-keep by_run (is_due p.month now db.runs) freed db.reservations (λ r. refl)
            b.distinct;
    counted = ap length e;
    others = refl;
    elsewhere = λ m ne. refl;
    here = (p, loaded, refl, refl);
  }
  finish (r ∷ rs) e h =
      Returns-bind (SweptTo (r ∷ rs) p db) (Expired p now db) (release_all (r ∷ rs) p db) _ h
        λ out s. record {
          balanced = s.balanced;
          released =
              s.saved
              ∙ (ap (λ l. save_each by_run freed l db.reservations) e
                  ∙ save_each-keep by_run (is_due p.month now db.runs) freed db.reservations
                      (λ r. refl) b.distinct);
          counted = ap length e;
          others =
              ap (λ (d : Database). record d { periods = save by_month out.0 out.1.periods })
                s.others;
          elsewhere = λ m ne.
              find-save by_month m out.0 out.1.periods
              ∙ ground (arith, s.month, ap (λ (d : Database). find by_month m d.periods) s.others);
          here = (
            out.0,
            find-save by_month p.month out.0 out.1.periods
                ∙ ground (
                  arith,
                  s.month,
                  loaded,
                  ap (λ (d : Database). find by_month p.month d.periods) s.others,
                ),
            s.month,
            s.limit,
          );
        }

  -- Expiry never fails; it releases the reservations of the period that are due and touches no other,
  -- and the accounts balance when it is done.
  pub expire_period_reservations-Expired :
      Returns (Expired p now db) (expire_period_reservations p now db)
  unfolding expire_period_reservations
  expire_period_reservations-Expired =
      finish (keep (is_due p.month now db.runs) db.reservations) refl (
        release_all-SweptTo (keep (is_due p.month now db.runs) db.reservations) p db
          (rw (save_self by_month p db.periods loaded) b)
          (Rows-keep by_run (is_due p.month now db.runs) db.reservations b.distinct)
          (Distinct-keep by_run (is_due p.month now db.runs) db.reservations b.distinct)
          (Due-keep p.month now db db.reservations) (ground (arith, loaded)))

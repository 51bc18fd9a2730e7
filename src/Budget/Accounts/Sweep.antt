-- ===== src/Budget/Accounts/Sweep.antt =====
-- The expiry of a period's reservations keeps the accounts, never fails, and releases exactly the
-- reservations that are due.
use civic_loop.Prelude.Table.Rows.{Rows, save_each, Rows-save}
use civic_loop.Prelude.Result.{Returns, Returns-map}
use civic_loop.Prelude.Table.{Distinct, save, find-save, le-total, save-save}
use mathlib.Core.Path.{subst}
use civic_loop.Prelude.{◌||◌, ◌-◌, sym, ◌∙◌, [], ◌∷◌, ◌++◌, All, ◌≡◌, refl, arith, ◌≤◌}
use civic_loop.Budget.{
  same_entry, EntryType, entry_released, ok, true, List, ℕ, BudgetPeriod, BudgetReservation,
  released, Database, by_month, by_run, create_entry, take_back,
}
use civic_loop.Budget.Release.{is_reserved, release_entry, release_all}
use civic_loop.Budget.Accounts.{is_some, some, find, IsBalanced, held, entries}
use civic_loop.Budget.Accounts.Post.{post-IsBalanced}

-- The database once the period's variable is written back.
abbrev pub with_period : BudgetPeriod → Database → Database
with_period p db = record db { periods = save by_month p db.periods }

abbrev pub freed : BudgetReservation → BudgetReservation
freed r = record r { status = released }

abbrev pub Due : ℕ → List BudgetReservation → Type 0
Due month = All (λ (r : BudgetReservation). (r.period ≡ month) × (is_reserved r.status ≡ true))

abbrev pub lowered : BudgetReservation → BudgetPeriod → BudgetPeriod
lowered r p = record p { reserved_microusd = p.reserved_microusd - r.reserved_cost_microusd }

abbrev pub after_one : BudgetReservation → Database → Database
after_one r db = record db {
  reservations = save by_run (freed r) db.reservations;
  ledger = db.ledger ++ release_entry r ∷ [];
}

release_kinds :
    (r : BudgetReservation)
    → is_reserved r.status ≡ true
    → (kind : EntryType)
    → entries kind (some (freed r)) ≡ (entries kind (some r) || same_entry entry_released kind)
release_kinds r active kind = ground arith

module _ (r : BudgetReservation) (p : BudgetPeriod) (db : Database)
    (b : IsBalanced (with_period p db)) (found : find by_run r.run_id db.reservations ≡ some r)
    (period : r.period ≡ p.month) (active : is_reserved r.status ≡ true)
    (opened : is_some (find by_month p.month db.periods) ≡ true) where
  found_period : find by_month p.month (save by_month p db.periods) ≡ some p
  found_period = find-save by_month p.month p db.periods ∙ ground (arith, opened)

  pub held_enough : r.reserved_cost_microusd ≤ p.reserved_microusd
  held_enough = ground (
    arith,
    le-total by_run (held p.month) r.run_id db.reservations found,
    b.periods_balance p.month p found_period,
  )

  pub take_back-held :
      take_back p.reserved_microusd r.reserved_cost_microusd
      ≡ ok (p.reserved_microusd - r.reserved_cost_microusd)
  unfolding take_back
  take_back-held = ground (arith, held_enough)

  pub create_entry-held :
      create_entry (release_entry r) db.ledger ≡ ok (db.ledger ++ release_entry r ∷ [])
  unfolding create_entry
  create_entry-held = ground (arith, b.entered r.run_id entry_released, found)

  pub release_one-IsBalanced : IsBalanced (with_period (lowered r p) (after_one r db))
  release_one-IsBalanced =
      subst (λ ps. IsBalanced (record (after_one r db) { periods = ps }))
        (save-save by_month (lowered r p) p db.periods refl)
        (post-IsBalanced (with_period p db) b r (freed r) p (lowered r p) (release_entry r) found
          refl found_period (sym period) refl (ground (arith, held_enough)) (ground arith)
          (ground (arith, held_enough, b.periods_balance p.month p found_period)) refl
          (release_kinds r active))

-- What the loop over the expired reservations has done when it ends.
pub record SweptTo (rs : List BudgetReservation) (p : BudgetPeriod) (db : Database)
    (out : BudgetPeriod × Database) : Type 0 where
  pub balanced : IsBalanced (with_period out.0 out.1)
  pub saved : out.1.reservations ≡ save_each by_run freed rs db.reservations
  pub others : out.1 ≡ record db { reservations = out.1.reservations; ledger = out.1.ledger }
  pub month : out.0.month ≡ p.month
  pub limit : out.0.limit_microusd ≡ p.limit_microusd
  pub settled : out.0.settled_microusd ≡ p.settled_microusd

pub release_all-SweptTo :
    (rs : List BudgetReservation) (p : BudgetPeriod) (db : Database)
    → IsBalanced (with_period p db)
    → Rows by_run rs db.reservations
    → Distinct by_run rs
    → Due p.month rs
    → is_some (find by_month p.month db.periods) ≡ true
    → Returns (SweptTo rs p db) (release_all rs p db)
unfolding release_all
release_all-SweptTo [] p db b rows d due opened = record {
  balanced = b;
  saved = refl;
  others = refl;
  month = refl;
  limit = refl;
  settled = refl;
}
release_all-SweptTo (r ∷ rs) p db b rows d due opened =
    rw
      (
        take_back-held r p db b rows.0 due.0.0 due.0.1 opened,
        create_entry-held r p db b rows.0 due.0.0 due.0.1 opened,
      )
      (Returns-map (SweptTo rs (lowered r p) (after_one r db)) (SweptTo (r ∷ rs) p db) _
        (release_all-SweptTo rs (lowered r p) (after_one r db)
          (release_one-IsBalanced r p db b rows.0 due.0.0 due.0.1 opened)
          (Rows-save by_run (freed r) rs db.reservations d.0 rows.1) d.1 due.1 opened)
        λ out s. record {
          balanced = s.balanced;
          saved = s.saved;
          others = s.others;
          month = s.month;
          limit = s.limit;
          settled = s.settled;
        })

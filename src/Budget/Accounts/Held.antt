-- ===== src/Budget/Accounts/Held.antt =====
-- What `release_budget`, `charge_reserved_budget` and `settle_budget` do to a reservation that is
-- still reserved.
use civic_loop.Prelude.Int.{ℤ}
use civic_loop.Prelude.Table.{find-save, find, save, key-find, save_self}
use civic_loop.Prelude.Result.{ok}
use civic_loop.Prelude.{
  ◌∙◌, inl, inr, ltb, Bool-cases, ℕ, ◌+◌, ◌-◌, ◌≤◌, ◌≡◌, refl, sym, true, ◌||◌, some, [], ◌∷◌, ◌++◌,
  arith, is_some,
}
use mathlib.Core.Path.{subst}
use civic_loop.Budget.{
  take_back, BudgetPeriod, BudgetReservation, Database, by_month, by_run, create_entry,
  entry_settled, EntryType, same_entry,
}
use civic_loop.Budget.Release.{is_reserved, release_held, charge_held, charged}
use civic_loop.Budget.Settle.{settled_as, settle_entry, book}
use civic_loop.Budget.Accounts.{IsBalanced, Sound, entries}
use civic_loop.Budget.Accounts.Post.{post-IsBalanced}
use civic_loop.Budget.Accounts.Sweep.{
  with_period, freed, lowered, after_one, take_back-held, create_entry-held, release_one-IsBalanced,
  held_enough,
}

settle_kinds :
    (r : BudgetReservation) (i o : ℤ) (actual : ℕ)
    → is_reserved r.status ≡ true
    → (kind : EntryType)
    → entries kind (some (settled_as r i o actual))
      ≡ (entries kind (some r) || same_entry entry_settled kind)
settle_kinds r i o actual active kind = ground arith

-- What a settlement leaves: balanced accounts, and the reservation as it was answered.
abbrev pub Answers : BudgetReservation → BudgetReservation × Database → Type 0
Answers s out = IsBalanced out.1 × (out.0 ≡ s) × (find by_run s.run_id out.1.reservations ≡ some s)

module _ (r : BudgetReservation) (p : BudgetPeriod) (db : Database) (b : IsBalanced db)
    (found : find by_run r.run_id db.reservations ≡ some r) (active : is_reserved r.status ≡ true)
    (loaded : find by_month r.period db.periods ≡ some p) where
  same_month : r.period ≡ p.month
  same_month = sym (key-find by_month r.period db.periods loaded)

  itself : find by_month p.month db.periods ≡ some p
  itself = subst (λ m. find by_month m db.periods ≡ some p) same_month loaded

  unchanged : IsBalanced (with_period p db)
  unchanged = rw (save_self by_month p db.periods itself) b

  is_there : is_some (find by_month p.month db.periods) ≡ true
  is_there = ground (arith, itself)

  -- A reserved reservation is released: its cost leaves the period's reserved total.
  pub release_held_lem :
      release_held r db ≡ ok (some (freed r), with_period (lowered r p) (after_one r db))
  unfolding release_held
  release_held_lem = rw (
    loaded,
    take_back-held r p db unchanged found same_month active is_there,
    create_entry-held r p db unchanged found same_month active is_there,
  )

  pub released-IsBalanced : IsBalanced (with_period (lowered r p) (after_one r db))
  released-IsBalanced = release_one-IsBalanced r p db unchanged found same_month active is_there

  enough : r.reserved_cost_microusd ≤ p.reserved_microusd
  enough = held_enough r p db unchanged found same_month active is_there

  -- The database after a reserved reservation is settled at an actual cost.
  abbrev booked : ℤ → ℤ → ℕ → Database
  booked i o actual = record db {
    periods =
        save by_month
          (record p {
            reserved_microusd = p.reserved_microusd - r.reserved_cost_microusd;
            settled_microusd = p.settled_microusd + actual;
          })
          db.periods;
    reservations = save by_run (settled_as r i o actual) db.reservations;
    ledger = db.ledger ++ settle_entry r i o actual ∷ [];
  }

  booked-IsBalanced :
      (i o : ℤ) (actual : ℕ)
      → p.settled_microusd + p.reserved_microusd + actual
        ≤ p.limit_microusd + r.reserved_cost_microusd
      → IsBalanced (booked i o actual)
  booked-IsBalanced i o actual fits =
      post-IsBalanced db b r (settled_as r i o actual) p _ (settle_entry r i o actual) found refl
        itself (sym same_month) refl (ground (arith, enough)) (ground arith)
        (ground (arith, enough)) refl (settle_kinds r i o actual active)

  fits-release :
      take_back p.reserved_microusd r.reserved_cost_microusd
      ≡ ok (p.reserved_microusd - r.reserved_cost_microusd)
  fits-release = take_back-held r p db unchanged found same_month active is_there

  settle_entry-new :
      (i o : ℤ) (actual : ℕ)
      → create_entry (settle_entry r i o actual) db.ledger
        ≡ ok (db.ledger ++ settle_entry r i o actual ∷ [])
  unfolding create_entry
  settle_entry-new i o actual = ground (arith, b.entered r.run_id entry_settled, found)

  stored :
      (s : BudgetReservation)
      → s.run_id ≡ r.run_id
      → find by_run s.run_id (save by_run s db.reservations) ≡ some s
  stored s e = find-save by_run s.run_id s db.reservations ∙ ground (arith, found, e)

  pub book-Sound :
      (i o : ℤ) (actual : ℕ) → Sound (Answers (settled_as r i o actual)) (book r i o actual p db)
  unfolding book
  book-Sound i o actual =
      elim (Bool-cases (
        ltb (p.limit_microusd + r.reserved_cost_microusd)
          (p.settled_microusd + p.reserved_microusd + actual))) [
            | inl over ↦ rw over tt
            | inr fits ↦
                rw (fits, fits-release, settle_entry-new i o actual)
                  (
                    booked-IsBalanced i o actual (ground arith),
                    refl,
                    stored (settled_as r i o actual) refl,
                  )
          ]

  -- A reserved reservation is charged in full: its cost moves to the period's settled total.
  pub charge_held_lem :
      (d : Database) × (charge_held r db ≡ ok (some (charged r), d))
      × IsBalanced d
      × (find by_run r.run_id d.reservations ≡ some (charged r))
  unfolding charge_held
  charge_held_lem = (
    booked r.estimated_input_tokens r.estimated_output_tokens r.reserved_cost_microusd,
    rw (
      loaded,
      fits-release,
      settle_entry-new r.estimated_input_tokens r.estimated_output_tokens r.reserved_cost_microusd,
    ),
    booked-IsBalanced r.estimated_input_tokens r.estimated_output_tokens r.reserved_cost_microusd
        (ground (arith, b.periods_balance r.period p loaded)),
    stored (charged r) refl,
  )

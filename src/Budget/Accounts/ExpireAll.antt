-- ===== src/Budget/Accounts/ExpireAll.antt =====
-- `expire_reservations` of backend/agents/budgets.py: every period in turn.
use civic_loop.Prelude.Table.Rows.{
  Distinct-keep, Rows-keep, All-find, any-find, map-All, map-map, map_self, Rows,
}
use civic_loop.Prelude.Table.{key-find, find, Distinct}
use civic_loop.Prelude.Result.{Returns, Returns-bind, Returns-map}
use civic_loop.Prelude.{
  subst, ◌&&◌, leb, ◌==◌, sym, ap, inl, inr, true, false, some, Bool-cases, is_some, keep, ℕ, ◌+◌,
  ◌≡◌, refl, ◌∙◌, Bool, none, List, [], ◌∷◌, map, arith, any, if◌then◌else◌,
}
use civic_loop.Budget.{BudgetPeriod, BudgetReservation, Database, AgentRun, by_month, by_run}
use civic_loop.Budget.Release.{
  is_due, is_reserved, has_expired, expire_each, expire_reservations, expire_period_reservations,
}
use civic_loop.Budget.Accounts.{IsBalanced}
use civic_loop.Budget.Accounts.Sweep.{freed}
use civic_loop.Budget.Accounts.Expiry.{swept, Expired, expire_period_reservations-Expired}

-- What the loop over the periods does to one reservation.
abbrev swept_each : List BudgetPeriod → ℕ → List AgentRun → BudgetReservation → BudgetReservation
swept_each [] now runs r = r
swept_each (p ∷ ps) now runs r =
    swept_each ps now runs (if is_due p.month now runs r then freed r else r)

record SweptEach (ps : List BudgetPeriod) (now : ℕ) (db : Database) (out : ℕ × Database)
    : Type 0 where
  balanced : IsBalanced out.1
  released_each : out.1.reservations ≡ map (swept_each ps now db.runs) db.reservations

Rows-elsewhere :
    (p : BudgetPeriod) (now : ℕ) (db : Database) (out : ℕ × Database) (ps : List BudgetPeriod)
    → Expired p now db out
    → find by_month p.month ps ≡ none
    → Rows by_month ps db.periods
    → Rows by_month ps (out.1).periods
unfolding find
Rows-elsewhere p now db out [] e h rows = tt
Rows-elsewhere p now db out (q ∷ qs) e h rows = (
  e.elsewhere q.month (λ same. ground arith) ∙ rows.0,
  Rows-elsewhere p now db out qs e (ground arith) rows.1,
)

expire_each-SweptEach :
    (ps : List BudgetPeriod) (now count : ℕ) (db : Database)
    → IsBalanced db
    → Rows by_month ps db.periods
    → Distinct by_month ps
    → Returns (SweptEach ps now db) (expire_each ps now count db)
unfolding expire_each
expire_each-SweptEach [] now count db b rows d = record {
  balanced = b;
  released_each = sym (map_self _ db.reservations (λ r. refl));
}
expire_each-SweptEach (p ∷ ps) now count db b rows d =
    Returns-bind (Expired p now db) (SweptEach (p ∷ ps) now db)
      (expire_period_reservations p now db) _ (expire_period_reservations-Expired p now db b rows.0)
      λ out e.
        Returns-map (SweptEach ps now out.1) (SweptEach (p ∷ ps) now db) _
          (expire_each-SweptEach ps now (count + out.0) out.1 e.balanced
            (Rows-elsewhere p now db out ps e d.0 rows.1) d.1)
          λ done s. record {
            balanced = s.balanced;
            released_each =
                s.released_each
                ∙ (ap (λ rs. map (swept_each ps now rs) (out.1).reservations)
                      (ap (λ (d : Database). d.runs) e.others)
                    ∙ (ap (map (swept_each ps now db.runs)) e.released
                        ∙ map-map (swept_each ps now db.runs) (swept p.month now db)
                            db.reservations));
          }

any_due : (now : ℕ) (runs : List AgentRun) (r : BudgetReservation) → List BudgetPeriod → Bool
any_due now runs r ps = any (λ (p : BudgetPeriod). is_due p.month now runs r) ps

if_same {ℓ} : {A : Type ℓ} (b : Bool) (x : A) → (if b then x else x) ≡ x
if_same true x = refl
if_same false x = refl

swept_each-any :
    (ps : List BudgetPeriod) (now : ℕ) (runs : List AgentRun) (r : BudgetReservation)
    → swept_each ps now runs r ≡ (if any_due now runs r ps then freed r else r)
unfolding any_due
swept_each-any [] now runs r = refl
swept_each-any (p ∷ ps) now runs r = elim (Bool-cases (is_due p.month now runs r)) [
  | inl due ↦
      rw due
        (swept_each-any ps now runs (freed r) ∙ if_same (any_due now runs (freed r) ps) (freed r))
  | inr kept ↦ rw kept (swept_each-any ps now runs r)
]

-- A reservation is due in no period but its own.
any_due-false :
    (now : ℕ) (runs : List AgentRun) (r : BudgetReservation) (ps : List BudgetPeriod)
    → is_due r.period now runs r ≡ false
    → any_due now runs r ps ≡ false
unfolding any_due
any_due-false now runs r [] h = refl
any_due-false now runs r (p ∷ ps) h = ground (arith, any_due-false now runs r ps h)

-- A reservation that is due is due in its own period, which is among those that are swept.
any_due-true :
    (now : ℕ) (runs : List AgentRun) (r : BudgetReservation) (rs : List BudgetReservation)
    (ps : List BudgetPeriod)
    → find by_run r.run_id rs ≡ some r
    → is_some (find by_month r.period ps) ≡ true
    → is_due r.period now runs r ≡ true
    → any_due now runs r (keep (has_expired now rs) ps) ≡ true
unfolding any_due find
any_due-true now runs r rs [] found home due = ground arith
any_due-true now runs r rs (p ∷ ps) found home due = elim (Bool-cases (r.period == p.month)) [
  | inl own ↦
      let expired : has_expired now rs p ≡ true =
        any-find by_run
          (λ (s : BudgetReservation).
            (s.period == p.month) && (is_reserved s.status && leb s.expires_at now))
          r.run_id r rs found (ground arith) in
      rw expired (ground arith)
  | inr other ↦
      let rest : any_due now runs r (keep (has_expired now rs) ps) ≡ true =
        any_due-true now runs r rs ps found (ground arith) due in
      elim (Bool-cases (has_expired now rs p)) [
        | inl e ↦ rw e (ground (arith, rest))
        | inr e ↦ rw e rest
      ]
]

any_due-own :
    (now : ℕ) (db : Database) (r : BudgetReservation)
    → IsBalanced db
    → find by_run r.run_id db.reservations ≡ some r
    → any_due now db.runs r (keep (has_expired now db.reservations) db.periods)
      ≡ is_due r.period now db.runs r
any_due-own now db r b found = elim (Bool-cases (is_due r.period now db.runs r)) [
  | inl due ↦
      any_due-true now db.runs r db.reservations db.periods found (b.homed r.run_id r found) due
      ∙ sym due
  | inr kept ↦ any_due-false now db.runs r _ kept ∙ sym kept
]

-- The accounts balance, and the reservations that are due, each in its own period, are released.
abbrev pub ReleasesDue : ℕ → Database → ℕ × Database → Type 0
ReleasesDue now db out =
    IsBalanced out.1
    × ((out.1).reservations
        ≡ map (λ r. if is_due r.period now db.runs r then freed r else r) db.reservations)

-- From balanced accounts `expire_reservations` never fails. It releases exactly the reservations that
-- are reserved, past their expiry and not protected by a run, whatever their period; the others stay
-- as they are, and the accounts balance.
pub expire_reservations-ReleasesDue :
    (now : ℕ) (db : Database)
    → IsBalanced db
    → Returns (ReleasesDue now db) (expire_reservations now db)
unfolding expire_reservations
expire_reservations-ReleasesDue now db b =
    let ps = keep (has_expired now db.reservations) db.periods in
    Returns-map (SweptEach ps now db) (ReleasesDue now db) (expire_each ps now 0 db)
      (expire_each-SweptEach ps now 0 db b (Rows-keep by_month _ db.periods b.months_distinct)
        (Distinct-keep by_month _ db.periods b.months_distinct))
      λ out s. (
        s.balanced,
        s.released_each
            ∙ map-All _ _ db.reservations (
                All-find by_run _ db.reservations b.distinct λ k r found.
                  swept_each-any ps now db.runs r
                  ∙ ap (λ due. if due then freed r else r)
                      (any_due-own now db r b (
                        subst (λ j. find by_run j db.reservations ≡ some r)
                          (sym (key-find by_run k db.reservations found)) found))),
      )

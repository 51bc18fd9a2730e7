-- ===== src/Budget/Accounts/Admission.antt =====
-- What `reserve_budget` of backend/agents/budgets.py answers and leaves, on every branch.
use civic_loop.Prelude.Table.Rows.{find-map}
use civic_loop.Prelude.Int.{exceeds, int_eq_refl}
use civic_loop.Prelude.Table.{key-find, find-append, find}
use civic_loop.Prelude.Result.{◌>>=◌, demand, err, Result, ok}
use civic_loop.Prelude.{
  ◌||◌, of_some, subst, ◌+◌, refl, sym, ap, ◌∙◌, Option, none, arith, ltb, ==_iff, ℕ, ◌≤◌, String,
  ◌≡◌, inl, inr, true, ◌&&◌, some, List, [], ◌∷◌, ◌==◌, str_eq, Bool-cases, Option-cases,
}
use mathlib.Core.Option
use civic_loop.Budget.{
  does_not_exist, BudgetPeriod, BudgetReservation, reserved, Database, by_month, by_run,
  ModelProfile, RoutingPolicy, BudgetError, create_entry, entry_reserved,
}
use civic_loop.Budget.Cost.{
  cost, month_start, get_profile, profile_and_policy, is_priced, get_policy,
}
use civic_loop.Budget.Release.{expire_period_reservations}
use civic_loop.Budget.Reserve.{
  ReserveRequest, same_request, hold, reserve_new, repeat_or_reserve, reserve_budget,
  period_for_update, get_or_create_period, new_reservation, reserve_entry,
}
use civic_loop.Budget.Accounts.{IsBalanced, Sound, Sound-bind, Sound-map, entries, Returns-Sound}
use civic_loop.Budget.Accounts.Expiry.{Expired, swept, expire_period_reservations-Expired}
use civic_loop.Budget.Accounts.Outcomes.{cost-Sound}
use civic_loop.Budget.Accounts.Fresh.{opened, opened-IsBalanced, taken-IsBalanced}

-- The answer is the stored reservation for this very request, in balanced accounts.
abbrev pub Admitted : ReserveRequest → BudgetReservation × Database → Type 0
Admitted q out =
    IsBalanced out.1
    × (find by_run q.run_id out.1.reservations ≡ some out.0)
    × (same_request out.0 q ≡ true)

-- A reservation that the request has created: at the price of its estimate, within the limit of one
-- run, in the period of the month.
abbrev pub IsFresh : ReserveRequest → ℕ → BudgetReservation → Type 0
IsFresh q now r =
    (r.status ≡ reserved)
    × (r.period ≡ month_start now)
    × (cost r.model_profile q.estimated_input_tokens q.estimated_output_tokens
        ≡ ok r.reserved_cost_microusd)
    × (r.reserved_cost_microusd ≤ r.routing_policy.per_run_limit_microusd)

abbrev IsNamed : ReserveRequest → ModelProfile × RoutingPolicy → Type 0
IsNamed q (profile, policy) =
    (str_eq profile.profile_id q.profile_id && (profile.revision == q.profile_revision)) ≡ true

get_profile-IsNamed :
    (name : String) (revision : ℕ) (ps : List ModelProfile) (p : ModelProfile)
    → get_profile name revision ps ≡ some p
    → (str_eq p.profile_id name && (p.revision == revision)) ≡ true
unfolding get_profile
get_profile-IsNamed name revision [] p h = cc
get_profile-IsNamed name revision (x ∷ xs) p h =
    elim (Bool-cases (str_eq x.profile_id name && (x.revision == revision))) [
      | inl hit ↦
          let same : x ≡ p = of_some (rw hit at h) in
          subst
            (λ (t : ModelProfile). (str_eq t.profile_id name && (t.revision == revision)) ≡ true)
            same hit
      | inr miss ↦ get_profile-IsNamed name revision xs p (rw miss at h)
    ]

profile_and_policy-IsNamed :
    (q : ReserveRequest) (db : Database)
    → Sound (IsNamed q) (profile_and_policy q.profile_id q.profile_revision db)
unfolding profile_and_policy
profile_and_policy-IsNamed q db =
    elim (Option-cases (get_profile q.profile_id q.profile_revision db.profiles)) [
      | inl missing ↦ rw missing tt
      | inr (profile, found) ↦ elim (Option-cases (get_policy profile db.policies)) [
        | inl missing ↦ rw (found, missing) tt
        | inr (policy, routed) ↦ elim (Bool-cases (is_priced profile)) [
          | inl priced ↦
              rw (found, routed, priced)
                (get_profile-IsNamed q.profile_id q.profile_revision db.profiles profile found)
          | inr free ↦ rw (found, routed, free) tt
        ]
      ]
    ]

-- The answer of an operation, with the equation that names it.
Sound-itself :
    {A : Type 0} (P : A → Type 0) (m : Result BudgetError A) → Sound P m → Sound (λ a. m ≡ ok a) m
Sound-itself P (ok a) h = refl
Sound-itself P (err e) h = h

-- The period that the month has, or that is opened for it.
abbrev IsCurrent : RoutingPolicy → ℕ → Database → BudgetPeriod × Database → Type 0
IsCurrent policy now db (period, db') =
    IsBalanced db'
    × (find by_month period.month db'.periods ≡ some period)
    × (period.month ≡ month_start now)
    × (period.limit_microusd ≡ policy.monthly_limit_microusd)
    × (db' ≡ record db { periods = db'.periods })

get_or_create_period-IsCurrent :
    (o : Option BudgetPeriod) (policy : RoutingPolicy) (now : ℕ) (db : Database)
    → IsBalanced db
    → find by_month (month_start now) db.periods ≡ o
    → let out = get_or_create_period o policy (month_start now) db in
      IsBalanced out.1
      × (find by_month (out.0).month (out.1).periods ≡ some out.0)
      × ((out.0).month ≡ month_start now)
      × (out.1 ≡ record db { periods = (out.1).periods })
unfolding get_or_create_period
get_or_create_period-IsCurrent none policy now db b h = (
  opened-IsBalanced policy (month_start now) db b h,
  find-append by_month (month_start now) (opened policy (month_start now)) db.periods
      ∙ ground (arith, h),
  refl,
  refl,
)
get_or_create_period-IsCurrent (some p) policy now db b h =
    let month = key-find by_month (month_start now) db.periods h in
    (b, subst (λ m. find by_month m db.periods ≡ some p) (sym month) h, month, refl)

period_for_update-IsCurrent :
    (policy : RoutingPolicy) (now : ℕ) (db : Database)
    → IsBalanced db
    → Sound (IsCurrent policy now db) (period_for_update policy now db)
unfolding period_for_update
period_for_update-IsCurrent policy now db b =
    let out =
      get_or_create_period (find by_month (month_start now) db.periods) policy (month_start now)
        db in
    let c =
      get_or_create_period-IsCurrent (find by_month (month_start now) db.periods) policy now db b
        refl in
    elim (Bool-cases ((out.0).limit_microusd == policy.monthly_limit_microusd)) [
      | inl same ↦ rw same (c.0, c.1, c.2, (==_iff _ _).0 same, c.3)
      | inr other ↦ rw other tt
    ]

hold-Sound :
    (q : ReserveRequest) (profile : ModelProfile) (policy : RoutingPolicy) (c now : ℕ)
    (p : BudgetPeriod) (db : Database)
    → IsBalanced db
    → find by_month p.month db.periods ≡ some p
    → find by_run q.run_id db.reservations ≡ none
    → IsNamed q (profile, policy)
    → Sound
        (λ out. Admitted q out × (out.0 ≡ new_reservation q profile policy c now p))
        (hold q profile policy c now p db)
unfolding hold create_entry
hold-Sound q profile policy c now p db b loaded absent named =
    let r = new_reservation q profile policy c now p in
    elim (Bool-cases (ltb p.limit_microusd (p.reserved_microusd + p.settled_microusd + c))) [
      | inl over ↦ rw over tt
      | inr fits ↦
          rw (fits, (b.entered q.run_id entry_reserved ∙ ap (entries entry_reserved) absent))
            (
              (
                taken-IsBalanced r (reserve_entry q profile c) p db b loaded absent refl refl refl
                    refl (ground arith),
                find-append by_run q.run_id r db.reservations ∙ ground (arith, absent),
                ground (
                  arith,
                  named,
                  int_eq_refl q.estimated_input_tokens,
                  int_eq_refl q.estimated_output_tokens,
                ),
              ),
              refl,
            )
    ]

-- The three checks that `reserve_new` makes before it opens the period.
module _ (q : ReserveRequest) (now : ℕ) (db : Database) (b : IsBalanced db)
    (absent : find by_run q.run_id db.reservations ≡ none) where
  abbrev Fresh : BudgetReservation × Database → Type 0
  Fresh out = Admitted q out × IsFresh q now out.0

  still_absent :
      (policy : RoutingPolicy) (p : BudgetPeriod) (open_db : Database)
      → IsCurrent policy now db (p, open_db)
      → (out : ℕ × Database) → Expired p now open_db out
      → find by_run q.run_id (out.1).reservations ≡ none
  still_absent policy p open_db current out e =
      ap (find by_run q.run_id) e.released
      ∙ (find-map by_run (swept p.month now open_db) q.run_id open_db.reservations
            (λ r. ground arith)
          ∙ ap (Option.map (swept p.month now open_db))
              (ap (λ (d : Database). find by_run q.run_id d.reservations) current.4 ∙ absent))

  admit :
      (profile : ModelProfile) (policy : RoutingPolicy) (c : ℕ)
      → IsNamed q (profile, policy)
      → cost profile q.estimated_input_tokens q.estimated_output_tokens ≡ ok c
      → c ≤ policy.per_run_limit_microusd
      → (p : BudgetPeriod) (open_db : Database) → IsCurrent policy now db (p, open_db)
      → (swept_count : ℕ × Database) → Expired p now open_db swept_count
      → Sound Fresh (do
        fresh ← demand (find by_month p.month (swept_count.1).periods) does_not_exist
        hold q profile policy c now fresh swept_count.1)
  admit profile policy c named priced cheap p open_db current out e =
      let (fresh, found, month, limit) = e.here in
      rw found (
        Sound-map (λ out. Admitted q out × (out.0 ≡ new_reservation q profile policy c now fresh))
          Fresh (hold q profile policy c now fresh out.1)
          (hold-Sound q profile policy c now fresh out.1 e.balanced
            (subst (λ m. find by_month m (out.1).periods ≡ some fresh) (sym month) found)
            (still_absent policy p open_db current out e) named)
          λ answer a.
            (a.0, subst (λ r. IsFresh q now r) (sym a.1) (refl, month ∙ current.2, priced, cheap)))

  reserve_new-Sound : Sound Fresh (reserve_new q now db)
  unfolding reserve_new
  reserve_new-Sound =
      Sound-bind (IsNamed q) Fresh (profile_and_policy q.profile_id q.profile_revision db) _
        (profile_and_policy-IsNamed q db)
        λ (profile, policy) named.
          elim (Bool-cases (
            exceeds q.estimated_input_tokens profile.max_input_tokens
            || exceeds q.estimated_output_tokens profile.max_output_tokens)) [
              | inl over ↦ rw over tt
              | inr fits ↦ rw fits (
                  Sound-bind
                    (λ c. cost profile q.estimated_input_tokens q.estimated_output_tokens ≡ ok c)
                    Fresh (cost profile q.estimated_input_tokens q.estimated_output_tokens) _
                    (Sound-itself (λ _. Unit) _
                      (cost-Sound profile q.estimated_input_tokens q.estimated_output_tokens))
                    λ c priced. elim (Bool-cases (ltb policy.per_run_limit_microusd c)) [
                      | inl over ↦ rw over tt
                      | inr cheap ↦ rw cheap (
                          Sound-bind (IsCurrent policy now db) Fresh
                            (period_for_update policy now db) _
                            (period_for_update-IsCurrent policy now db b)
                            λ (p, open_db) current.
                              Sound-bind (Expired p now open_db) Fresh
                                (expire_period_reservations p now open_db) _
                                (Returns-Sound (Expired p now open_db) _ (
                                  expire_period_reservations-Expired p now open_db current.0
                                    current.1))
                                λ out e.
                                  admit profile policy c named priced (ground arith) p open_db
                                    current out e)
                    ])
            ]

-- From balanced accounts `reserve_budget` answers the run's stored reservation for this very request,
-- in balanced accounts, or raises one of the module's own errors: no constraint of the tables is
-- broken. A run that had no reservation gets one of the month, at the price of its estimate and
-- within the limit of one run.
pub reserve_budget-Sound :
    (q : ReserveRequest) (now : ℕ) (db : Database)
    → IsBalanced db
    → Sound
        (λ out.
          Admitted q out × (find by_run q.run_id db.reservations ≡ none → IsFresh q now out.0))
        (reserve_budget q now db)
unfolding reserve_budget
reserve_budget-Sound q now db b = answered (find by_run q.run_id db.reservations) refl
  where
    answered :
        (o : Option BudgetReservation)
        → find by_run q.run_id db.reservations ≡ o
        → Sound
            (λ out.
              Admitted q out × (find by_run q.run_id db.reservations ≡ none → IsFresh q now out.0))
            (repeat_or_reserve o q now db)
    answered none absent =
        Sound-map (Fresh q now db b absent) _ (reserve_new q now db)
          (reserve_new-Sound q now db b absent) λ out a. (a.0, λ _. a.1)
    answered (some r) found = elim (Bool-cases (same_request r q)) [
      | inl same ↦ rw same ((b, found, same), λ absent. absurd (cc (found, absent)))
      | inr other ↦ rw other tt
    ]

-- ===== src/Budget/Cost.antt =====
-- `_month_start`, `_cost` and `_profile_and_policy` of backend/agents/budgets.py.
use civic_loop.Prelude.{
  is_some, ℕ, ◌+◌, ◌-◌, ◌*◌, ◌/◌, ◌%◌, String, Bool, ◌&&◌, Option, none, some, List, [], ◌∷◌,
  str_eq, ◌==◌, if◌then◌else◌,
}
use civic_loop.Prelude.Int.{ℤ, pos}
use civic_loop.Prelude.Result.{Result, ok, err, ◌>>=◌, demand}
use civic_loop.Budget.{
  ModelProfile, RoutingPolicy, Database, BudgetError, unknown_model_price, budget_request_conflict,
  same_purpose,
}

abbrev pub day_microseconds : ℕ
day_microseconds = 86_400_000_000

-- `value.date().replace(day=1)`: the day number of the first of the month. The civil calendar is
-- counted from 1 March of year 0, in eras of 400 years.
unfoldable pub month_start : ℕ → ℕ
month_start value =
    let day = value / day_microseconds in
    let doe = (day + 719_468) % 146_097 in
    let yoe = (doe - doe / 1_460 + doe / 36_524 - doe / 146_096) / 365 in
    let doy = doe - (365 * yoe + yoe / 4 - yoe / 100) in
    let mp = (5 * doy + 2) / 153 in day - (doy - (153 * mp + 2) / 5)

abbrev pub priced_cost : Option ℕ → Option ℕ → ℤ → ℤ → Result BudgetError ℕ
priced_cost (some input_price) (some output_price) (pos i) (pos o) =
    ok ((i * input_price + o * output_price + 999_999) / 1_000_000)
priced_cost (some input_price) (some output_price) _ _ = err budget_request_conflict
priced_cost _ _ _ _ = err unknown_model_price

unfoldable pub cost : ModelProfile → ℤ → ℤ → Result BudgetError ℕ
cost profile input_tokens output_tokens =
    priced_cost profile.input_price_microusd_per_million profile.output_price_microusd_per_million
      input_tokens output_tokens

-- `ModelProfile.objects.get(profile_id=..., revision=...)`
unfoldable pub get_profile : String → ℕ → List ModelProfile → Option ModelProfile
get_profile profile_id revision [] = none
get_profile profile_id revision (p ∷ ps) =
    if str_eq p.profile_id profile_id && (p.revision == revision)
    then some p
    else get_profile profile_id revision ps

-- `RoutingPolicy.objects.get(model_profile=profile, purpose=profile.purpose)`
unfoldable pub get_policy : ModelProfile → List RoutingPolicy → Option RoutingPolicy
get_policy profile [] = none
get_policy profile (p ∷ ps) =
    if (p.model_profile == profile.pk) && same_purpose p.purpose profile.purpose
    then some p
    else get_policy profile ps

abbrev pub is_priced : ModelProfile → Bool
is_priced profile =
    is_some profile.input_price_microusd_per_million
    && is_some profile.output_price_microusd_per_million

unfoldable pub profile_and_policy :
    String → ℕ → Database → Result BudgetError (ModelProfile × RoutingPolicy)
profile_and_policy profile_id revision db = do
  profile ← demand (get_profile profile_id revision db.profiles) unknown_model_price
  policy ← demand (get_policy profile db.policies) unknown_model_price
  if is_priced profile then ok (profile, policy) else err unknown_model_price

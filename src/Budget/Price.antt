-- ===== src/Budget/Price.antt =====
-- The price of a model call: `_cost` and `_month_start` of backend/agents/budgets.py.
use civic_loop.Prelude.Int.{pos}
use civic_loop.Prelude.Result.{of_ok, ok}
use civic_loop.Prelude.{ℕ, ◌+◌, ◌*◌, ◌/◌, ◌≤◌, ◌<◌, ◌≡◌, some, arith}
use civic_loop.Budget.{ModelProfile}
use civic_loop.Budget.Cost.{cost, month_start, day_microseconds}

-- A price in microdollars is the exact cost rounded up: the smallest number whose millionfold covers
-- the tokens at the prices per million.
pub cost_ceiling :
    (profile : ModelProfile) (i o a b c : ℕ)
    → profile.input_price_microusd_per_million ≡ some a
    → profile.output_price_microusd_per_million ≡ some b
    → cost profile (pos i) (pos o) ≡ ok c
    → (i * a + o * b ≤ c * 1_000_000) × (c * 1_000_000 < i * a + o * b + 1_000_000)
unfolding cost
cost_ceiling profile i o a b c ha hb h =
    let e : (i * a + o * b + 999_999) / 1_000_000 ≡ c = of_ok (rw (ha, hb) at h) in omega (arith, e)

-- The month of a time begins on its day or at most thirty days before.
month_start_near :
    (value : ℕ)
    → (month_start value ≤ value / day_microseconds)
      × (value / day_microseconds ≤ month_start value + 30)
unfolding month_start
month_start_near value = omega arith

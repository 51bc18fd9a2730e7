-- ===== src/Evaluation/Checks/Sponsor.antt =====
-- When `validate_sponsor_discount` of loops/launchloop/launchloop.py returns.
use civic_loop.Launch.{number, text, get}
use civic_loop.Launch.Text.{lower}
use civic_loop.Evaluation.{Event, sponsor_discount}
use civic_loop.Evaluation.Checks.{validate_sponsor_discount}
use civic_loop.Prelude.Result.{is_ok}
use civic_loop.Prelude.{ℕ, String, ◌≡◌, ◌||◌, some, arith, ◌==◌, is_some}

-- With a tier that is a text and numbers for the price and the discount, the check returns
-- exactly if the event is free or the tier is known; for another tier it raises instead of
-- failing the check.
pub validate_sponsor_discount-returns :
    (e : Event) (tier : String) (price percent : ℕ)
    → get "sponsor_tier" e.fields ≡ some (text tier)
    → get "general_ticket_price" e.fields ≡ some (number price)
    → get "sponsor_discount_percent" e.fields ≡ some (number percent)
    → is_ok (validate_sponsor_discount e) ≡ (price == 0) || is_some (sponsor_discount (lower tier))
unfolding validate_sponsor_discount
validate_sponsor_discount-returns e tier price percent t p d = ground (arith, t, p, d)

-- ===== src/Launch/Tests/Events.antt =====
-- The theorems on the packages of backend/launchloop at the demo event and at an owner's event.
use civic_loop.Launch.{ready_for_review, text, null, Snapshot, Package}
use civic_loop.Launch.Workflow.Calls.{put, new_york_event}
use civic_loop.Launch.Text.{show, lower, strip}
use civic_loop.Launch.Tests.{calendar}
use civic_loop.Launch.Owner.Packages.{prepare_owner_package-Ready, validate_facts_again}
use civic_loop.Launch.Owner.{
  fact_fields, fact, own_fact, own_facts, is_invalid, owner_missing, Facts, read_facts, as_snapshot,
  span_ok, facts_ok, validate_facts, prepare_owner_package,
}
use civic_loop.Launch.Engine.Packages.{
  prepare_package-returns, prepare_package-price_missing, Described, prepare_package-Status,
}
use civic_loop.Launch.Engine.{or_else, discount_for, prepare_package}
use civic_loop.Prelude.Result.{is_ok, ok, err}
use civic_loop.Prelude.{◌≢◌, is_none, All, ◌≡◌, refl, false, none, some, [], ◌∷◌}
use civic_loop.Launch.Engine.{draft}

abbrev campaign : Package
campaign =
    (prepare_package-returns new_york_event 40
      (refl, (refl, (refl, (refl, (refl, (refl, (refl, tt))))))) refl).0

campaign_eq : prepare_package new_york_event ≡ ok campaign
campaign_eq =
    (prepare_package-returns new_york_event 40
      (refl, (refl, (refl, (refl, (refl, (refl, (refl, tt))))))) refl).1

prepare_package-Status_example : Described new_york_event campaign
prepare_package-Status_example = prepare_package-Status new_york_event campaign campaign_eq

-- The demo event with its price left out.
abbrev unpriced : Snapshot
unpriced = put "general_ticket_price" null new_york_event

prepare_package-price_missing_example : is_ok (prepare_package unpriced) ≡ false
unfolding discount_for lower show
prepare_package-price_missing_example = prepare_package-price_missing unpriced 25 refl refl

abbrev owner_event : Snapshot
owner_event =
    ("title", text "Park clean-up")
    ∷ ("date", text "2026-09-05")
    ∷ ("start_time", text "09:00")
    ∷ ("end_time", text "12:00")
    ∷ ("timezone", text "America/New_York")
    ∷ ("city", text "New York")
    ∷ ("region", text "NY")
    ∷ ("country", text "US")
    ∷ ("venue_name", text "Prospect Park")
    ∷ ("venue_address", text "95 Prospect Park W")
    ∷ ("access_instructions", text " North gate. ")
    ∷ ("signup_url", text "https://example.test/park")
    ∷ []

abbrev flyer : Package
flyer = elim (prepare_owner_package calendar owner_event) [ ok p ↦ p | err _ ↦ campaign ]

flyer_eq : prepare_owner_package calendar owner_event ≡ ok flyer
unfolding prepare_owner_package own_facts own_fact owner_missing is_invalid validate_facts
    read_facts facts_ok span_ok strip draft show or_else
flyer_eq = refl

flyer_ready : flyer.status ≡ ready_for_review
unfolding prepare_owner_package own_facts own_fact owner_missing is_invalid validate_facts
    read_facts facts_ok span_ok strip draft show or_else
flyer_ready = refl

prepare_owner_package-Ready_example :
    All
      (λ key.
        (fact key (own_facts calendar owner_event) ≢ "")
        × ((own_fact calendar owner_event key).1 ≡ false))
      fact_fields
    × (is_none (validate_facts calendar (as_snapshot (own_facts calendar owner_event))) ≡ false)
prepare_owner_package-Ready_example =
    prepare_owner_package-Ready calendar owner_event flyer flyer_eq flyer_ready

abbrev owner_facts : Facts
owner_facts = elim (validate_facts calendar owner_event) [ none ↦ [] | some facts ↦ facts ]

owner_facts_eq : validate_facts calendar owner_event ≡ some owner_facts
unfolding validate_facts read_facts facts_ok span_ok strip
owner_facts_eq = refl

validate_facts_again_example : validate_facts calendar (as_snapshot owner_facts) ≡ some owner_facts
validate_facts_again_example = validate_facts_again calendar owner_event owner_facts owner_facts_eq

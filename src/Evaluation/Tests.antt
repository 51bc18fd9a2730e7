-- ===== src/Evaluation/Tests.antt =====
-- The evaluation of loops/launchloop at two events, and its theorems there.
use civic_loop.Evaluation.Packages.Verdict.{Judged, generate_package-Judged}
use civic_loop.Evaluation.Packages.Cases.{Expected, checks_of, evaluate_case}
use civic_loop.Evaluation.Checks.Sponsor.{validate_sponsor_discount-returns}
use civic_loop.Launch.{Snapshot, text, number}
use civic_loop.Launch.Text.{lower, show, decimal}
use civic_loop.Launch.Engine.{or_else}
use civic_loop.Evaluation.{
  sponsor_discount, find_event, select_segment, missing_event_fields, requires_bilingual_content,
  PyError, Event, Segment,
}
use civic_loop.Evaluation.Packages.{
  ready_for_approval, risk_flags_of, handoff_of, status_of, summary_of, CampaignPackage,
  generate_package,
}
use civic_loop.Evaluation.Checks.{
  discounted_price, validate_sponsor_discount, build_email_draft, detect_consequential_request,
}
use civic_loop.Prelude.Result.{is_ok, Result, ok, err}
use civic_loop.Prelude.{
  some, arith, is_some, ℕ, String, ◌≡◌, refl, Bool, true, false, ◌&&◌, ◌||◌, List, [], ◌∷◌, leb,
  ◌==◌,
}

-- The letters, digits and underscore of ASCII.
abbrev is_word : ℕ → Bool
is_word c =
    (leb 48 c && leb c 57) || ((leb 65 c && leb c 90) || ((c == 95) || (leb 97 c && leb c 122)))

abbrev fields : Snapshot
fields =
    ("version", number 1)
    ∷ ("title", text "Youth Day Breakfast")
    ∷ ("city", text "Toronto")
    ∷ ("region", text "ON")
    ∷ ("country", text "CA")
    ∷ ("date", text "2026-08-12")
    ∷ ("start_time", text "09:00")
    ∷ ("end_time", text "12:00")
    ∷ ("timezone", text "America/Toronto")
    ∷ ("venue_name", text "City Hall")
    ∷ ("venue_address", text "100 Queen St W")
    ∷ ("access_instructions", text "Use the west door.")
    ∷ ("general_ticket_price", number 40)
    ∷ ("signup_url", text "https://example.test/toronto")
    ∷ ("sponsor_tier", text "Gold")
    ∷ ("sponsor_discount_percent", number 25)
    ∷ []

abbrev toronto : Event
toronto = record { event_id = "evt_toronto_complete"; fields = fields; scenario_tags = [] }

abbrev segments : List Segment
segments =
    record {
      segment_id = "ontario_active_members";
      region = "ON";
      country = "CA";
      language = "English";
      synthetic_member_count = 350;
    }
    ∷ []

abbrev package_for : String → Result PyError CampaignPackage
package_for user_request =
    generate_package is_word (toronto ∷ []) segments "evt_toronto_complete" user_request

sender : detect_consequential_request is_word "Credit the sender." ≡ false
unfolding detect_consequential_request lower
sender = refl

no_value : (e : PyError) → is_ok {A = CampaignPackage} (err e) ≡ true → CampaignPackage
no_value e h = ground arith

abbrev value : (r : Result PyError CampaignPackage) → is_ok r ≡ true → CampaignPackage
value (ok p) h = p
value (err e) h = no_value e h

prepared_quiet : is_ok (package_for "Prepare a package.") ≡ true
unfolding generate_package find_event select_segment missing_event_fields validate_sponsor_discount
    sponsor_discount discounted_price requires_bilingual_content build_email_draft summary_of
    detect_consequential_request lower show or_else decimal status_of handoff_of risk_flags_of
prepared_quiet = refl

abbrev quiet : CampaignPackage
quiet = value (package_for "Prepare a package.") prepared_quiet

quiet_eq : package_for "Prepare a package." ≡ ok quiet
unfolding generate_package find_event select_segment missing_event_fields validate_sponsor_discount
    sponsor_discount discounted_price requires_bilingual_content build_email_draft summary_of
    detect_consequential_request lower show or_else decimal status_of handoff_of risk_flags_of
quiet_eq = refl

generate_package-Judged_example : Judged quiet
generate_package-Judged_example =
    generate_package-Judged is_word (toronto ∷ []) segments "evt_toronto_complete"
      "Prepare a package." quiet quiet_eq

prepared_sent : is_ok (package_for "Review, then send it.") ≡ true
unfolding generate_package find_event select_segment missing_event_fields validate_sponsor_discount
    sponsor_discount discounted_price requires_bilingual_content build_email_draft summary_of
    detect_consequential_request lower show or_else decimal status_of handoff_of risk_flags_of
prepared_sent = refl

abbrev sent : CampaignPackage
sent = value (package_for "Review, then send it.") prepared_sent

abbrev happy : Expected
happy = record {
  status = ready_for_approval;
  must_have_missing_fields = [];
  must_have_segment = some "ontario_active_members";
  must_refuse_action = false;
  must_require_human_handoff = false;
  must_request_segment_clarification = false;
  must_have_risk_flags = [];
}

happy_eq :
    evaluate_case is_word (toronto ∷ []) segments "evt_toronto_complete" "Prepare a package." happy
    ≡ ok (true, quiet)
unfolding generate_package find_event select_segment missing_event_fields validate_sponsor_discount
    sponsor_discount discounted_price requires_bilingual_content build_email_draft summary_of
    detect_consequential_request lower show or_else decimal status_of handoff_of risk_flags_of
    evaluate_case checks_of
happy_eq = refl

-- A sponsor of a tier that no rule names.
abbrev unknown_tier : Event
unknown_tier = record toronto {
  fields =
      ("sponsor_tier", text "Copper")
      ∷ ("general_ticket_price", number 40)
      ∷ ("sponsor_discount_percent", number 0)
      ∷ [];
}

validate_sponsor_discount-returns_example :
    is_ok (validate_sponsor_discount unknown_tier)
    ≡ (40 == 0) || is_some (sponsor_discount (lower "Copper"))
validate_sponsor_discount-returns_example =
    validate_sponsor_discount-returns unknown_tier "Copper" 40 0 refl refl refl

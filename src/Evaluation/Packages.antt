-- ===== src/Evaluation/Packages.antt =====
-- `generate_package` and `evaluate_case` of loops/launchloop/launchloop.py.
pub mod Verdict
pub mod Cases
use civic_loop.Evaluation.{
  PyError, Event, find_event, item, select_segment, missing_event_fields,
  requires_bilingual_content, Segment, scenario_risk_flags, blocking_scenarios,
  escalation_scenarios, has_tag, meets,
}
use civic_loop.Evaluation.Checks.{
  validate_sponsor_discount, detect_consequential_request, build_email_draft, SponsorCheck,
  EmailDraft,
}
use civic_loop.Prelude.{
  ℕ, String, Bool, true, false, not, ◌||◌, Option, none, some, List, [], ◌∷◌, ◌++◌, if◌then◌else◌,
}
use civic_loop.Prelude.Result.{Result, ok, err, ◌>>=◌, demand}
use Prim.Native.String.{compare}
use Prim.Native.Nat.{Ordering}
use civic_loop.Launch.{Value, null, flag, number, text, Snapshot, get, get_or}
use civic_loop.Launch.Text.{concat, show, lower, decimal}
use civic_loop.Launch.Engine.{is_missing, or_else, is_empty}

pub data EvaluationStatus : Type 0 where
  escalated blocked ready_for_approval : EvaluationStatus

-- `[flag] if condition else []`
abbrev when : Bool → String → List String
when true risk = risk ∷ []
when false risk = []

-- The loop over SCENARIO_RISK_FLAGS.
abbrev scenario_risks : List String → List (String × List String) → List String
scenario_risks tags [] = []
scenario_risks tags ((tag, risks) ∷ rest) =
    (if has_tag tags tag then risks else []) ++ scenario_risks tags rest

unfoldable pub risk_flags_of : Bool → Bool → Bool → Bool → Bool → List String → List String
risk_flags_of missing passed consequential bilingual unmatched tags =
    when missing "missing_required_event_fields"
    ++ (when (not passed) "sponsor_discount_policy_mismatch"
        ++ (when consequential "requested_unapproved_send_or_publish"
            ++ (when bilingual "bilingual_content_required"
                ++ (when unmatched "audience_segment_clarification_required"
                    ++ scenario_risks tags scenario_risk_flags))))

-- `human_handoff_required`; a bilingual event is one of region QC.
unfoldable pub handoff_of : Bool → Bool → Bool → Bool → List String → Bool
handoff_of passed consequential bilingual unmatched tags =
    consequential
    || (bilingual
        || (not passed
            || (unmatched || (meets tags blocking_scenarios || meets tags escalation_scenarios))))

unfoldable pub status_of : Bool → Bool → Bool → Bool → Bool → List String → EvaluationStatus
status_of missing passed consequential bilingual unmatched tags =
    if consequential || (bilingual || (unmatched || meets tags escalation_scenarios))
    then escalated
    else if missing || (not passed || meets tags blocking_scenarios)
    then blocked
    else ready_for_approval

pub record EventSummary : Type 0 where
  pub event_id : String
  pub version : Value
  pub title : Value
  pub date : Value
  pub time : String
  pub venue : Value
  pub venue_address : Value
  pub access_instructions : Value
  pub signup_url : Value
  pub ticket_price : Value
  pub delivery_mode : Value

pub record Recommendation : Type 0 where
  pub segment_id : Option String
  pub reason : String
  pub member_count : ℕ
  pub language_requirement : String
  pub clarification_request : Option String
  pub suppression_required : Bool

pub record CampaignPackage : Type 0 where
  pub package_status : EvaluationStatus
  pub event_summary : EventSummary
  pub missing_eventbrite_fields : List String
  pub invitation : EmailDraft
  pub reminder : EmailDraft
  pub social_text : String
  pub audience : Recommendation
  pub sponsor : SponsorCheck
  pub language_passed : Bool
  pub language_note : String
  pub safety_passed : Bool
  pub refused_actions : List String
  pub risk_flags : List String
  pub human_handoff_required : Bool

abbrev recommend : Option Segment → Value → Value → Value → List String → Recommendation
recommend none city region country tags = record {
  segment_id = none;
  reason = concat (
      "No approved segment matched "
      ∷ show city
      ∷ ", "
      ∷ show region
      ∷ ". "
      ∷ "Clarification is required; LaunchLoop will not nearest-match this event to another geography."
      ∷ []);
  member_count = 0;
  language_requirement = "Unknown";
  clarification_request = some (
      concat (
        "No approved audience segment exists for "
        ∷ show region
        ∷ ". Should a human create/approve a "
        ∷ "Pennsylvania segment or change the event targeting?"
        ∷ []));
  suppression_required = has_tag tags "suppressed_audience";
}
recommend (some s) city region country tags = record {
  segment_id = some s.segment_id;
  reason = concat (
      "Matched event region "
      ∷ show region
      ∷ " and country "
      ∷ show country
      ∷ " to approved active-member segment."
      ∷ []);
  member_count = s.synthetic_member_count;
  language_requirement = s.language;
  clarification_request = none;
  suppression_required = has_tag tags "suppressed_audience";
}

abbrev pub is_unmatched : Option Segment → Bool
is_unmatched none = true
is_unmatched (some s) = false

-- `event["venue_name"] or "[Venue TBD]"`
abbrev or_placeholder : String → String → Event → Result PyError Value
or_placeholder key placeholder e = item key e >>= λ v. ok (or_else (some v) placeholder)

unfoldable pub summary_of : Event → Result PyError EventSummary
summary_of e = do
  version ← item "version" e
  title ← item "title" e
  date ← item "date" e
  start_time ← item "start_time" e
  end_time ← item "end_time" e
  timezone ← item "timezone" e
  venue ← or_placeholder "venue_name" "[Venue TBD]" e
  venue_address ← or_placeholder "venue_address" "[Venue Address TBD]" e
  access_instructions ← or_placeholder "access_instructions" "[Access Instructions TBD]" e
  signup_url ← item "signup_url" e
  ticket_price ← item "general_ticket_price" e
  ok (record {
    event_id = e.event_id;
    version = version;
    title = title;
    date = date;
    time = concat (show start_time ∷ "-" ∷ show end_time ∷ " " ∷ show timezone ∷ []);
    venue = venue;
    venue_address = venue_address;
    access_instructions = access_instructions;
    signup_url = signup_url;
    ticket_price = ticket_price;
    delivery_mode = get_or (text "in_person") (get "delivery_mode" e.fields);
  })

-- The texts that are the same in every package are left out. The country is only shown for a
-- matched
-- segment, so that it is there.
unfoldable pub generate_package :
    (ℕ → Bool) → List Event → List Segment → String → String → Result PyError CampaignPackage
generate_package is_word events segments event_id user_request = do
  e ← find_event event_id events
  segment ← select_segment e segments
  let missing = missing_event_fields e
  sponsor ← validate_sponsor_discount e
  let consequential = detect_consequential_request is_word user_request
  bilingual ← requires_bilingual_content e
  region ← item "region" e
  invitation ← build_email_draft e "Invitation"
  reminder ← build_email_draft e "Reminder"
  event_summary ← summary_of e
  city ← item "city" e
  let passed = sponsor.passed
  let lacks = not (is_empty missing)
  let unmatched = is_unmatched segment
  ok (record {
    package_status = status_of lacks passed consequential bilingual unmatched e.scenario_tags;
    event_summary = event_summary;
    missing_eventbrite_fields = missing;
    invitation = invitation;
    reminder = reminder;
    social_text = concat (
        "Join us for "
        ∷ show event_summary.title
        ∷ " in "
        ∷ show city
        ∷ " on "
        ∷ show event_summary.date
        ∷ ". Venue: "
        ∷ show event_summary.venue
        ∷ ". Register: "
        ∷ show event_summary.signup_url
        ∷ []);
    audience = recommend segment city region (get_or null (get "country" e.fields)) e.scenario_tags;
    sponsor = sponsor;
    language_passed = not bilingual;
    language_note =
        if bilingual
        then "Quebec campaigns require English/French content."
        else "No bilingual requirement triggered.";
    safety_passed = not consequential;
    refused_actions =
        when consequential
          "Refused to send, schedule, publish, or change production records without approval.";
    risk_flags = risk_flags_of lacks passed consequential bilingual unmatched e.scenario_tags;
    human_handoff_required = handoff_of passed consequential bilingual unmatched e.scenario_tags;
  })

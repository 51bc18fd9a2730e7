-- ===== src/Launch/Engine.antt =====
-- backend/launchloop/engine.py: the campaign package of one synthetic event revision.
pub mod Packages
use civic_loop.Prelude.Result.{Result, ok, err, ◌>>=◌, demand}
use civic_loop.Prelude.{
  ℕ, ◌-◌, ◌*◌, String, Bool, true, false, ◌&&◌, ◌||◌, Option, none, some, List, [], ◌∷◌, map, ◌==◌,
  str_eq, is_some, length, keep, if◌then◌else◌,
}
use civic_loop.Launch.{
  Value, null, flag, number, text, Snapshot, get, get_or, PyError, key_error, type_error,
  PackageStatus, ready_for_review, needs_input, blocked, LaneStatus, lane_complete,
  lane_needs_input, lane_blocked, Draft, Assets, Audience, Sponsor, Lane, Package,
}
use civic_loop.Launch.Text.{concat, show, decimal, lower, spaced, ends_in}

abbrev pub required_fields : List String
required_fields =
    "title" ∷ "city" ∷ "date" ∷ "start_time" ∷ "end_time" ∷ "timezone" ∷ "venue_name"
    ∷ "venue_address" ∷ "access_instructions" ∷ "general_ticket_price" ∷ "signup_url" ∷ []

-- `AUDIENCES.get((region, country))`
unfoldable pub audience_for : Option Value → Option Value → Option Audience
audience_for (some (text region)) (some (text country)) =
    if str_eq region "NY" && str_eq country "US"
    then some (record {
      id = some "new_york_active_members";
      name = "New York Active Members";
      member_count = 418;
      language = "English";
    })
    else none
audience_for _ _ = none

-- `SPONSOR_DISCOUNTS.get(tier)`
unfoldable pub discount_for : String → Option ℕ
discount_for tier =
    if str_eq tier "platinum" || str_eq tier "gold"
    then some 25
    else if str_eq tier "silver" || str_eq tier "bronze"
    then some 15
    else none

-- `value or default`: None, "", 0 and False are replaced.
unfoldable pub or_else : Option Value → String → Value
or_else none default = text default
or_else (some null) default = text default
or_else (some (flag false)) default = text default
or_else (some (flag true)) default = flag true
or_else (some (number n)) default = if n == 0 then text default else number n
or_else (some (text s)) default = if str_eq s "" then text default else text s

abbrev pub shown : Option Value → Result PyError String
shown none = err key_error
shown (some v) = ok (show v)

-- `event[key]` inside an f-string
abbrev pub field : String → Snapshot → Result PyError String
field key event = shown (get key event)

unfoldable pub draft : Snapshot → String → Result PyError Draft
draft event kind = do
  let venue = show (or_else (get "venue_name" event) "[Venue TBD]")
  let address = show (or_else (get "venue_address" event) "[Venue Address TBD]")
  let access = show (or_else (get "access_instructions" event) "[Access Instructions TBD]")
  let access_sentence =
      if ends_in (b'.' ∷ b'!' ∷ b'?' ∷ []) access then access else concat (access ∷ "." ∷ [])
  title ← field "title" event
  date ← field "date" event
  start_time ← field "start_time" event
  end_time ← field "end_time" event
  timezone ← field "timezone" event
  signup_url ← field "signup_url" event
  ok (record {
    subject = concat (kind ∷ ": " ∷ title ∷ []);
    body = concat (
        title ∷ " is scheduled for " ∷ date ∷ " from " ∷ start_time ∷ " to " ∷ end_time ∷ " "
        ∷ timezone ∷ " at " ∷ venue ∷ ". Address: " ∷ address ∷ ". Access: " ∷ access_sentence
        ∷ " Register: " ∷ signup_url ∷ []);
  })

-- `event.get(field) in ("", None)`
abbrev pub is_missing : Option Value → Bool
is_missing none = true
is_missing (some null) = true
is_missing (some (text s)) = str_eq s ""
is_missing (some _) = false

unfoldable pub missing_fields : Snapshot → List String
missing_fields event = keep (λ key. is_missing (get key event)) required_fields

unfoldable pub prompt : String → String
prompt key =
    if str_eq key "venue_name"
    then "What is the confirmed venue name?"
    else if str_eq key "venue_address"
    then "What is the complete venue address?"
    else if str_eq key "access_instructions"
    then "What arrival or accessibility instructions should guests receive?"
    else concat ("What is the confirmed " ∷ spaced key ∷ "?" ∷ [])

-- `expected == actual` for a percentage
abbrev percent_eq : ℕ → Option Value → Bool
percent_eq expected (some (number n)) = expected == n
percent_eq expected (some (flag true)) = expected == 1
percent_eq expected (some (flag false)) = expected == 0
percent_eq expected _ = false

unfoldable pub sponsor_passed : Option ℕ → Option Value → Bool
sponsor_passed none actual = false
sponsor_passed (some expected) actual = percent_eq expected actual

-- `round(event["general_ticket_price"] * (1 - discount / 100), 2)`, in cents. A price that is
-- text or
-- None cannot be multiplied by a float.
abbrev discounted : Option Value → ℕ → Result PyError ℕ
discounted none discount = err key_error
discounted (some (number price)) discount = ok (price * (100 - discount))
discounted (some (flag true)) discount = ok (100 - discount)
discounted (some (flag false)) discount = ok 0
discounted (some _) discount = err type_error

unfoldable pub sponsor_price : Option ℕ → Option Value → Result PyError (Option ℕ)
sponsor_price none price = ok none
sponsor_price (some discount) price = do cents ← discounted price discount; ok (some cents)

unfoldable pub package_status : List String → Option Audience → Bool → PackageStatus
package_status (_ ∷ _) audience passed = needs_input
package_status [] none passed = blocked
package_status [] (some a) passed = if passed then ready_for_review else blocked

abbrev lane_of : PackageStatus → LaneStatus
lane_of ready_for_review = lane_complete
lane_of needs_input = lane_needs_input
lane_of blocked = lane_blocked

abbrev pub clarification : Audience
clarification = record {
  id = none;
  name = "Clarification required";
  member_count = 0;
  language = "Unknown";
}

abbrev or_clarification : Option Audience → Audience
or_clarification none = clarification
or_clarification (some a) = a

abbrev pub is_empty {ℓ} : {A : Type ℓ} → List A → Bool
is_empty [] = true
is_empty (_ ∷ _) = false

unfoldable pub prepare_package : Snapshot → Result PyError Package
prepare_package event = do
  let missing = missing_fields event
  let audience = audience_for (get "region" event) (get "country" event)
  let tier = lower (show (get_or (text "") (get "sponsor_tier" event)))
  let expected = discount_for tier
  let passed = sponsor_passed expected (get "sponsor_discount_percent" event)
  let status = package_status missing audience passed
  invitation ← draft event "Invitation"
  reminder ← draft event "Reminder"
  title ← field "title" event
  city ← field "city" event
  date ← field "date" event
  signup_url ← field "signup_url" event
  price ← sponsor_price expected (get "general_ticket_price" event)
  ok (record {
    schema_id = none;
    status = status;
    missing_fields = missing;
    questions = map (λ key. (key, prompt key)) missing;
    assets = record {
      invitation = invitation;
      reminder = reminder;
      social = concat (
          "Join us for "
          ∷ title
          ∷ " in "
          ∷ city
          ∷ " on "
          ∷ date
          ∷ ". Venue: "
          ∷ show (or_else (get "venue_name" event) "[Venue TBD]")
          ∷ ". Register: "
          ∷ signup_url
          ∷ []);
    };
    audience = or_clarification audience;
    sponsor = record {
      passed = passed;
      tier = tier;
      expected_discount_percent = expected;
      actual_discount_percent = get "sponsor_discount_percent" event;
      general_ticket_price = get "general_ticket_price" event;
      sponsor_ticket_price = price;
    };
    event_readiness = record {
      label = "Event Readiness";
      status = if is_empty missing then lane_complete else lane_needs_input;
      summary =
          if is_empty missing
          then "All required event facts are grounded."
          else concat (decimal (length missing) ∷ " event facts need an operator response." ∷ []);
    };
    campaign_composer = record {
      label = "Campaign Composer";
      status = lane_of status;
      summary = "Prepared invitation, reminder, and social drafts.";
    };
    audience_policy = record {
      label = "Audience and Policy";
      status = if is_some audience && passed then lane_complete else lane_blocked;
      summary =
          if is_some audience && passed
          then "Matched the approved New York audience and validated sponsor pricing."
          else "Audience or sponsor policy needs human review.";
    };
    evidence =
        "Read one immutable event revision."
        ∷ "Matched only an approved geography-specific audience."
        ∷ "Recomputed sponsor discount math deterministically."
        ∷ "Prepared review-only drafts; no external action was taken." ∷ [];
  })

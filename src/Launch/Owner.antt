-- ===== src/Launch/Owner.antt =====
-- backend/launchloop/owner_events.py: public event facts of the owner, their validation and the
-- package prepared from them. Dates, clock times, time zones and URLs are read by Python's library
-- and its time zone database, which are a parameter.
pub mod Packages
use civic_loop.Prelude.Result.{Result, ◌>>=◌, ok, err}
use civic_loop.Prelude.{
  ℕ, String, Bool, true, false, not, ◌&&◌, ◌||◌, Option, none, some, List, [], ◌∷◌, map, ltb,
  str_eq, is_none, any, keep, if◌then◌else◌,
}
use Prim.Native.String.{count}
use civic_loop.Launch.{
  PyError, Value, text, Snapshot, get, get_or, ready_for_review, needs_input, lane_complete,
  lane_needs_input, Draft, Package,
}
use civic_loop.Launch.Text.{concat, strip, spaced}
use civic_loop.Launch.Engine.{missing_fields, draft, is_empty}

pub record Url : Type 0 where
  pub scheme : String
  pub has_host : Bool
  pub has_username : Bool
  pub has_password : Bool

-- A local time in a zone: whether its offset is the same for both folds, its instant in UTC, and
-- whether the instant is that local time again.
pub record Resolved : Type 0 where
  pub unfolded : Bool
  pub instant : ℕ
  pub round_trips : Bool

pub record Calendar : Type 0 where
  pub iso_date : String → Option String
  pub zone : String → Bool
  pub clock : String → Option String
  pub split_url : String → Url
  pub resolve : String → String → String → Option Resolved

abbrev pub fact_fields : List String
fact_fields =
    "title" ∷ "date" ∷ "start_time" ∷ "end_time" ∷ "timezone" ∷ "city" ∷ "region" ∷ "country"
    ∷ "venue_name" ∷ "venue_address" ∷ "access_instructions" ∷ "signup_url" ∷ []

abbrev pub Facts : Type 0
Facts = List (String × String)

-- `facts.get(key)`, where an absent fact and an empty one are the same to the code
abbrev pub fact : String → Facts → String
fact key [] = ""
fact key ((k, v) ∷ rest) = if str_eq k key then v else fact key rest

abbrev pub length_limit : String → ℕ
length_limit key =
    if str_eq key "access_instructions"
    then 2_000
    else if str_eq key "title"
    then 240
    else if str_eq key "timezone"
    then 64
    else 500

abbrev pub fact_of : String → Value → Option String
fact_of key (text raw) = if ltb (length_limit key) (count raw) then none else some (strip raw)
fact_of key _ = none

-- The first loop of `validate_facts`: known names, texts of bounded length, stripped.
unfoldable pub read_facts : Snapshot → Option Facts
read_facts [] = some []
read_facts ((key, raw) ∷ rest) =
    let tail = read_facts rest in
    if any (λ k. str_eq k key) fact_fields
    then elim (fact_of key raw) [
      | none ↦ none
      | some v ↦ elim tail [ none ↦ none | some facts ↦ some ((key, v) ∷ facts) ]
    ]
    else none

-- `not facts.get(key) or parse(facts[key]) == facts[key]`
abbrev unless_blank : String → Bool → Bool
unless_blank s ok_if = str_eq s "" || ok_if

abbrev same_text : Option String → String → Bool
same_text none s = false
same_text (some t) s = str_eq t s

abbrev pub as_snapshot : Facts → Snapshot
as_snapshot facts = map (λ f. (f.0, text f.1)) facts

module _ (c : Calendar) where
  abbrev url_ok : Url → Bool
  url_ok u =
      (str_eq u.scheme "https" || str_eq u.scheme "http")
      && (u.has_host && (not u.has_username && not u.has_password))

  abbrev usable : Option Resolved → Bool
  usable none = false
  usable (some r) = r.unfolded && r.round_trips

  abbrev ordered : Option Resolved → Option Resolved → Bool
  ordered (some start) (some end_) = ltb start.instant end_.instant
  ordered _ _ = false

  -- The last check of `validate_facts`: two unambiguous local times, the end after the start.
  unfoldable pub span_ok : Facts → Bool
  span_ok facts =
      let start = c.resolve (fact "date" facts) (fact "timezone" facts) (fact "start_time" facts) in
      let finish = c.resolve (fact "date" facts) (fact "timezone" facts) (fact "end_time" facts) in
      (str_eq (fact "date" facts) ""
        || (str_eq (fact "timezone" facts) ""
            || (str_eq (fact "start_time" facts) "" || str_eq (fact "end_time" facts) "")))
      || (usable start && (usable finish && ordered start finish))

  unfoldable pub facts_ok : Facts → Bool
  facts_ok facts =
      unless_blank (fact "date" facts)
        (same_text (c.iso_date (fact "date" facts)) (fact "date" facts))
      && (unless_blank (fact "timezone" facts) (c.zone (fact "timezone" facts))
          && (unless_blank (fact "start_time" facts)
                (same_text (c.clock (fact "start_time" facts)) (fact "start_time" facts))
              && (unless_blank (fact "end_time" facts)
                    (same_text (c.clock (fact "end_time" facts)) (fact "end_time" facts))
                  && (unless_blank (fact "signup_url" facts)
                        (url_ok (c.split_url (fact "signup_url" facts)))
                      && span_ok facts))))

  -- `none` is the ValueError "invalid_event_facts".
  unfoldable pub validate_facts : Snapshot → Option Facts
  validate_facts value = elim (read_facts value) [
    | none ↦ none
    | some facts ↦ if facts_ok facts then some facts else none
  ]

  -- One round of the first loop of `prepare_owner_package`: the fact, and whether it is invalid.
  unfoldable pub own_fact : Snapshot → String → String × Bool
  own_fact snapshot key = elim (validate_facts ((key, get_or (text "") (get key snapshot)) ∷ [])) [
    | none ↦ ("", true)
    | some facts ↦ (fact key facts, false)
  ]

  unfoldable pub own_facts : Snapshot → Facts
  own_facts snapshot = map (λ key. (key, (own_fact snapshot key).0)) fact_fields

  -- The keys in `invalid`: those that are refused alone, and both times if the facts are
  -- refused together.
  unfoldable pub is_invalid : Snapshot → String → Bool
  is_invalid snapshot key =
      (own_fact snapshot key).1
      || (is_none (validate_facts (as_snapshot (own_facts snapshot)))
          && (str_eq key "start_time" || str_eq key "end_time"))

  unfoldable pub owner_missing : Snapshot → List String
  owner_missing snapshot =
      keep (λ key. str_eq (fact key (own_facts snapshot)) "" || is_invalid snapshot key) fact_fields

  unfoldable pub prepare_owner_package : Snapshot → Result PyError Package
  prepare_owner_package snapshot = do
    let facts = own_facts snapshot
    let missing = owner_missing snapshot
    let lane = if is_empty missing then lane_complete else lane_needs_input
    invitation ← draft (as_snapshot facts) "Invitation"
    reminder ← draft (as_snapshot facts) "Reminder"
    ok (record {
      schema_id = some "owner_event_draft_v1";
      status = if is_empty missing then ready_for_review else needs_input;
      missing_fields = missing;
      questions = map (λ key. (key, concat ("Confirm " ∷ spaced key ∷ "." ∷ []))) missing;
      assets = record {
        invitation = invitation;
        reminder = reminder;
        social =
            concat (
              fact "title" facts
              ∷ " on "
              ∷ fact "date" facts
              ∷ ". "
              ∷ fact "signup_url" facts
              ∷ []);
      };
      audience = record {
        id = none;
        name = "Choose in provider review";
        member_count = 0;
        language = "Unspecified";
      };
      sponsor = record {
        passed = false;
        tier = "";
        expected_discount_percent = none;
        actual_discount_percent = none;
        general_ticket_price = none;
        sponsor_ticket_price = none;
      };
      event_readiness = record {
        label = "Event Readiness";
        status = lane;
        summary =
            if is_empty missing
            then "Public event facts confirmed."
            else "Confirm public event facts.";
      };
      campaign_composer = record {
        label = "Content preparation";
        status = lane;
        summary = "Event copy is for review only.";
      };
      audience_policy = record {
        label = "Provider review";
        status = lane_needs_input;
        summary = "Choose exact audience and suppression in provider request review.";
      };
      evidence =
          "Prepared only public event facts from the current revision."
          ∷ "No audience segmentation or sponsor policy was applied."
          ∷ "Provider operations require a separate exact owner request approval." ∷ [];
    })

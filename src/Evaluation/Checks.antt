-- ===== src/Evaluation/Checks.antt =====
-- The sponsor, request and draft checks of loops/launchloop/launchloop.py.
pub mod Sponsor
use civic_loop.Evaluation.{
  PyError, type_error, attribute_error, Event, sponsor_discount, consequential_actions, item,
}
use civic_loop.Prelude.{
  ℕ, ◌-◌, ◌*◌, String, Bool, true, false, not, ◌&&◌, ◌||◌, some, List, [], ◌∷◌, leb, ◌==◌, any,
  keep, if◌then◌else◌,
}
use civic_loop.Prelude.Int.{ℤ, pos, negsuc}
use civic_loop.Prelude.Result.{Result, ok, err, ◌>>=◌, demand}
use Prim.Native.Char.{Char, code}
use civic_loop.Launch.{Value, null, flag, number, text, Snapshot, get}
use civic_loop.Launch.Text.{concat, show, lower, decimal}
use civic_loop.Launch.Engine.{is_missing, or_else, is_empty}

-- A number, where True is 1 and False is 0. Another value cannot be divided or multiplied by a
-- float.
abbrev pub as_number : Value → Result PyError ℕ
as_number (number n) = ok n
as_number (flag true) = ok 1
as_number (flag false) = ok 0
as_number _ = err type_error

-- `value == 0`
abbrev is_zero : Value → Bool
is_zero (number n) = n == 0
is_zero (flag b) = not b
is_zero _ = false

-- `value.lower()`
abbrev lowered : Value → Result PyError String
lowered (text s) = ok (lower s)
lowered _ = err attribute_error

-- `round(price * (1 - percent / 100), 2)` in cents; negative for more than 100 percent.
unfoldable pub discounted_price : ℕ → ℕ → ℤ
discounted_price price percent =
    if leb (price * percent) (price * 100)
    then pos (price * 100 - price * percent)
    else negsuc (price * percent - price * 100 - 1)

pub record SponsorCheck : Type 0 where
  pub passed : Bool
  pub tier : String
  pub rule : String
  pub expected_discount_percent : ℕ
  pub actual_discount_percent : Value
  pub expected_sponsor_price : ℤ
  pub actual_sponsor_price : ℤ

-- A tier that is not known has no percentage, and None cannot be divided.
unfoldable pub validate_sponsor_discount : Event → Result PyError SponsorCheck
validate_sponsor_discount e = do
  sponsor_tier ← item "sponsor_tier" e
  tier ← lowered sponsor_tier
  ticket_price ← item "general_ticket_price" e
  let is_free_event = is_zero ticket_price
  let known = if is_free_event then some 0 else sponsor_discount tier
  actual ← item "sponsor_discount_percent" e
  expected ← demand known type_error
  price ← as_number ticket_price
  actual_percent ← as_number actual
  ok (record {
    passed = expected == actual_percent;
    tier = tier;
    rule =
        if is_free_event
        then "Free events do not apply sponsor discounts."
        else concat (tier ∷ " sponsor-domain members receive " ∷ decimal expected ∷ "% off." ∷ []);
    expected_discount_percent = expected;
    actual_discount_percent = actual;
    expected_sponsor_price = discounted_price price expected;
    actual_sponsor_price = discounted_price price actual_percent;
  })

-- The characters that `\w` matches, by code, are a table of Python's library.
module _ (is_word : ℕ → Bool) where
  abbrev ends_word : String → Bool
  ends_word String.[] = true
  ends_word (String.◌∷◌ c s) = not (is_word (code c))

  -- The text starts with the action, and a word ends there.
  abbrev starts_action : String → String → Bool
  starts_action String.[] s = ends_word s
  starts_action (String.◌∷◌ a rest) String.[] = false
  starts_action (String.◌∷◌ a rest) (String.◌∷◌ c s) = (code a == code c) && starts_action rest s

  -- `re.search` of an action between word boundaries, after a character that is or is not a word's.
  abbrev search_action : Bool → String → String → Bool
  search_action after_word action String.[] = false
  search_action after_word action (String.◌∷◌ c s) =
      (not after_word && starts_action action (String.◌∷◌ c s))
      || search_action (is_word (code c)) action s

  unfoldable pub detect_consequential_request : String → Bool
  detect_consequential_request user_request =
      any (λ action. search_action false action (lower user_request)) consequential_actions

-- `token in text`
abbrev starts_text : String → String → Bool
starts_text String.[] s = true
starts_text (String.◌∷◌ t rest) String.[] = false
starts_text (String.◌∷◌ t rest) (String.◌∷◌ c s) = (code t == code c) && starts_text rest s

abbrev contains_text : String → String → Bool
contains_text token String.[] = starts_text token String.[]
contains_text token (String.◌∷◌ c s) = starts_text token (String.◌∷◌ c s) || contains_text token s

pub record EmailDraft : Type 0 where
  pub subject : String
  pub preview_text : String
  pub body : String
  pub cta_link : Value
  pub unresolved_placeholders : List String

unfoldable pub build_email_draft : Event → String → Result PyError EmailDraft
build_email_draft e kind = do
  venue_name ← item "venue_name" e
  venue_address ← item "venue_address" e
  access_instructions ← item "access_instructions" e
  let venue = show (or_else (some venue_name) "[Venue TBD]")
  let address = show (or_else (some venue_address) "[Venue Address TBD]")
  let access = show (or_else (some access_instructions) "[Access Instructions TBD]")
  title ← item "title" e
  city ← item "city" e
  date ← item "date" e
  start_time ← item "start_time" e
  end_time ← item "end_time" e
  timezone ← item "timezone" e
  signup_url ← item "signup_url" e
  ok (record {
    subject = concat (kind ∷ ": " ∷ show title ∷ []);
    preview_text = concat ("Join us in " ∷ show city ∷ " on " ∷ show date ∷ "." ∷ []);
    body = concat (
        show title
        ∷ " is scheduled for "
        ∷ show date
        ∷ " from "
        ∷ show start_time
        ∷ " to "
        ∷ show end_time
        ∷ " "
        ∷ show timezone
        ∷ " at "
        ∷ venue
        ∷ ". Address: "
        ∷ address
        ∷ ". Access: "
        ∷ access
        ∷ ". Register here: "
        ∷ show signup_url
        ∷ []);
    cta_link = signup_url;
    unresolved_placeholders =
        keep (λ token. contains_text token (concat (venue ∷ " " ∷ address ∷ " " ∷ access ∷ [])))
          ("[Venue TBD]" ∷ "[Venue Address TBD]" ∷ "[Access Instructions TBD]" ∷ []);
  })

-- ===== src/Draft/Payload/Eventbrite.antt =====
-- `validate_payload` and `compute_request_digest` of backend/integrations/eventbrite_drafts.py.
use civic_loop.Prelude.Result.{Result, ok, err, ◌>>=◌, ◌>>◌, refuse}
use civic_loop.Prelude.{
  ℕ, String, Bool, true, false, not, ◌&&◌, ◌||◌, Option, none, some, List, [], ◌∷◌, all, leb, ltb,
  ◌==◌, str_eq, is_some, is_none, if◌then◌else◌,
}
use civic_loop.Json.{Json, Fields, null, flag, str, obj, end, field, get, width}
use civic_loop.Json.Render.{render, byte_length, canonical_style, default_style}
use civic_loop.Launch.Text.{strip}
use civic_loop.Draft.{Error}
use civic_loop.Draft.Review.{not_exact}
use civic_loop.Draft.Payload.{Library, invalid_request, every_char, is_digit, between, keys_within}
use Prim.Native.Char.{code}
use Prim.Native.String.{count}

abbrev pub max_request_bytes : ℕ
max_request_bytes = 32_768

-- `[1-9][0-9]{0,39}`
abbrev pub is_identifier : String → Bool
is_identifier String.[] = false
is_identifier (String.◌∷◌ ch s) =
    between 49 57 (code ch) && (leb (count s) 39 && every_char is_digit s)

abbrev field_names : Bool → List String
field_names create =
    let names =
      "name" ∷ "summary" ∷ "start" ∷ "end" ∷ "online_event" ∷ "venue_id" ∷ "listed" ∷ "shareable"
      ∷ [] in
    if create then "currency" ∷ names else names

abbrev html_valid : Option Json → Bool
html_valid (some (str s)) = not (str_eq (strip s) "") && leb (count s) 200
html_valid _ = false

-- Each check is of a field that may be missing.
abbrev name_valid : Option Json → Bool
name_valid none = true
name_valid (some (obj fs)) = not (not_exact ("html" ∷ []) fs) && html_valid (get "html" fs)
name_valid (some _) = false

abbrev summary_valid : Option Json → Bool
summary_valid none = true
summary_valid (some (str s)) = leb (count s) 140
summary_valid (some _) = false

abbrev currency_valid : Option Json → Bool
currency_valid none = true
currency_valid (some (str s)) = (count s == 3) && every_char (between 65 90) s
currency_valid (some _) = false

abbrev online_valid : Option Json → Bool
online_valid none = true
online_valid (some (flag b)) = true
online_valid (some _) = false

abbrev unpublished : Option Json → Bool
unpublished none = true
unpublished (some (flag false)) = true
unpublished (some _) = false

abbrev is_true : Option Json → Bool
is_true (some (flag true)) = true
is_true _ = false

abbrev venue_valid : Option Json → Option Json → Bool
venue_valid none online = true
venue_valid (some (str s)) online = is_identifier s && not (is_true online)
venue_valid (some _) online = false

module _ (l : Library) where
  abbrev zoned : Option Json → Option Json → Option ℕ
  zoned (some (str utc)) (some (str timezone)) = if l.is_zone timezone then l.moment utc else none
  zoned _ _ = none

  abbrev date_of : Json → Option ℕ
  date_of (obj fs) =
      if not_exact ("utc" ∷ "timezone" ∷ []) fs
      then none
      else zoned (get "utc" fs) (get "timezone" fs)
  date_of _ = none

  abbrev in_order : Option ℕ → Option ℕ → Bool
  in_order (some a) (some b) = ltb a b
  in_order _ _ = false

  -- Both dates or none, and the start before the end
  abbrev dates_valid : Option Json → Option Json → Bool
  dates_valid none none = true
  dates_valid (some a) (some b) = in_order (date_of a) (date_of b)
  dates_valid _ _ = false

  abbrev has_required : Bool → Fields → Bool
  has_required create event =
      not create || all (λ k. is_some (get k event)) ("name" ∷ "start" ∷ "end" ∷ "currency" ∷ [])

  unfoldable pub event_valid : Bool → Fields → Bool
  event_valid create event =
      not (width event == 0)
      && (keys_within (field_names create) event
          && (has_required create event
              && (name_valid (get "name" event)
                  && (summary_valid (get "summary" event)
                      && (dates_valid (get "start" event) (get "end" event)
                          && (currency_valid (get "currency" event)
                              && (online_valid (get "online_event" event)
                                  && (unpublished (get "listed" event)
                                      && (unpublished (get "shareable" event)
                                          && venue_valid (get "venue_id" event)
                                              (get "online_event" event))))))))))

  -- `event.setdefault(key, False)`
  abbrev append_field : String → Fields → Fields
  append_field k end = field k (flag false) end
  append_field k (field j v fs) = field j v (append_field k fs)

  abbrev set_default : String → Fields → Fields
  set_default k fs = if is_some (get k fs) then fs else append_field k fs

  abbrev event_of : Option Json → Result Error Fields
  event_of (some (obj event)) = ok event
  event_of _ = err invalid_request

  abbrev payload_of : Json → Result Error Fields
  payload_of (obj fs) = if not_exact ("event" ∷ []) fs then err invalid_request else ok fs
  payload_of _ = err invalid_request

  unfoldable pub validate_payload : Json → Bool → Result Error Json
  validate_payload payload create = do
    fs ← payload_of payload
    event ← event_of (get "event" fs)
    refuse (not (event_valid create event)) invalid_request
    refuse (ltb max_request_bytes (byte_length (render (default_style false) payload)))
        invalid_request
    ok (
        if create
        then obj (field "event" (obj (set_default "shareable" (set_default "listed" event))) end)
        else payload)

  abbrev optional_event : Option String → Json
  optional_event none = null
  optional_event (some s) = str s

  abbrev event_fits : Bool → Option String → Bool
  event_fits true (some s) = is_identifier s
  event_fits true none = false
  event_fits false o = is_none o

  unfoldable pub compute_request_digest :
      String → String → Option String → Json → Result Error String
  compute_request_digest action organization_id event_id payload = do
    refuse (not (str_eq action "create" || str_eq action "update")) invalid_request
    refuse (not (is_identifier organization_id)) invalid_request
    refuse (not (event_fits (str_eq action "update") event_id)) invalid_request
    valid ← validate_payload payload (str_eq action "create")
    ok (
        l.sha256 (
          render canonical_style (
            obj (
              field "action" (str action) (
                field "organization_id" (str organization_id)
                  (field "event_id" (optional_event event_id) (field "payload" valid end)))))))

-- ===== src/Draft/Payload/Iterable.antt =====
-- `validate_payload` and `compute_request_digest` of backend/integrations/iterable_drafts.py.
use civic_loop.Prelude.Int.{pos}
use civic_loop.Prelude.Result.{Result, ok, err, ◌>>=◌, ◌>>◌, refuse}
use civic_loop.Prelude.{
  ℕ, String, Bool, true, false, not, ◌&&◌, ◌||◌, Option, none, some, List, [], ◌∷◌, any, leb, ltb,
  ◌==◌, str_eq, if◌then◌else◌,
}
use civic_loop.Json.{
  Json, Items, Fields, flag, num, str, arr, obj, nil, item, end, field, get, size,
}
use civic_loop.Json.Render.{render, byte_length, canonical_style, default_style}
use civic_loop.Launch.Text.{strip}
use civic_loop.Draft.{Error}
use civic_loop.Draft.Review.{not_exact}
use civic_loop.Draft.Service.{is_digest}
use civic_loop.Draft.Payload.{Library, invalid_request}
use Prim.Native.String.{count}

-- `MAX_REQUEST_BYTES`
abbrev pub max_campaign_bytes : ℕ
max_campaign_bytes = 16_384

-- `_identifier`
abbrev pub number_of : Json → Option ℕ
number_of (num (pos n)) = if leb 1 n && leb n 9_223_372_036_854_775_807 then some n else none
number_of _ = none

-- `_region`
abbrev pub is_region : Json → Bool
is_region (str s) = str_eq s "us" || str_eq s "eu"
is_region _ = false

abbrev pub region_of : Json → Result Error Json
region_of v = if is_region v then ok v else err invalid_request

abbrev pub numbers_of : Items → Option (List ℕ)
numbers_of nil = some []
numbers_of (item v xs) = cons_number (number_of v) (numbers_of xs)
  where
    cons_number : Option ℕ → Option (List ℕ) → Option (List ℕ)
    cons_number (some n) (some ns) = some (n ∷ ns)
    cons_number _ _ = none

-- `len(set(ids)) == len(ids)`
abbrev different : List ℕ → Bool
different [] = true
different (n ∷ ns) = not (any (λ m. m == n) ns) && different ns

abbrev all_different : Option (List ℕ) → Bool
all_different none = false
all_different (some ns) = different ns

-- The lists to send to, of which there is one, and those to leave out
abbrev ids_valid : Bool → Option Json → Bool
ids_valid required (some (arr xs)) =
    leb (size xs) 100 && (not (required && (size xs == 0)) && all_different (numbers_of xs))
ids_valid required _ = false

abbrev campaign_name_valid : Option Json → Bool
campaign_name_valid (some (str s)) = not (str_eq (strip s) "") && leb (count s) 200
campaign_name_valid _ = false

abbrev unscheduled : Option Json → Bool
unscheduled (some (flag false)) = true
unscheduled _ = false

abbrev is_number : Option Json → Bool
is_number none = false
is_number (some v) = is_set (number_of v)
  where
    is_set : Option ℕ → Bool
    is_set none = false
    is_set (some n) = true

unfoldable pub campaign_valid : Fields → Bool
campaign_valid fs =
    not (
      not_exact ("name" ∷ "templateId" ∷ "listIds" ∷ "suppressionListIds" ∷ "scheduleSend" ∷ []) fs)
    && (campaign_name_valid (get "name" fs)
        && (unscheduled (get "scheduleSend" fs)
            && (is_number (get "templateId" fs)
                && (ids_valid true (get "listIds" fs)
                    && ids_valid false (get "suppressionListIds" fs)))))

abbrev fields_of : Json → Result Error Fields
fields_of (obj fs) = ok fs
fields_of _ = err invalid_request

unfoldable pub validate_campaign : Json → Result Error Json
validate_campaign payload = do
  fs ← fields_of payload
  refuse (not (campaign_valid fs)) invalid_request
  refuse (ltb max_campaign_bytes (byte_length (render (default_style false) payload)))
      invalid_request
  ok payload

abbrev digest_given : Json → Bool
digest_given (str s) = is_digest s
digest_given _ = false

module _ (l : Library) where
  unfoldable pub campaign_digest : Json → Json → Json → Result Error String
  campaign_digest region payload expected = do
    refuse (not (digest_given expected)) invalid_request
    place ← region_of region
    valid ← validate_campaign payload
    ok (
        l.sha256 (
          render canonical_style (
            obj (
              field "region" place
                (field "payload" valid (field "expected_template_digest" expected end))))))

-- ===== src/Draft/Adapter/Campaign.antt =====
-- `IterableDraftAdapter` of backend/integrations/iterable_drafts.py.
use civic_loop.Prelude.Int.{pos}
use civic_loop.Prelude.{
  ℕ, ◌+◌, ◌-◌, ◌*◌, String, Bool, true, false, not, ◌&&◌, Option, none, some, List, [], ◌∷◌, any,
  leb, ◌==◌, str_eq, is_some, if◌then◌else◌,
}
use civic_loop.Json.{Json, Fields, null, num, str, arr, obj, end, field, get}
use civic_loop.Json.Render.{render, canonical_style}
use civic_loop.Launch.Text.{decimal}
use civic_loop.Draft.{Receipt}
use civic_loop.Draft.Review.{json_eq}
use civic_loop.Draft.Payload.{Library, is_digit}
use civic_loop.Draft.Payload.Eventbrite.{is_identifier}
use Prim.Native.Char.{code}
use Prim.Native.String.{count}
use civic_loop.Draft.Payload.Iterable.{
  number_of, numbers_of, is_region, validate_campaign, campaign_digest,
}
use civic_loop.Draft.Adapter.{
  http_get, http_post, Target, campaign, template, campaigns_create, Request, Wire, Credential,
  credential_invalid, value_of, is_null, is_text, unknown_receipt, confirmed_receipt,
}
use civic_loop.Draft.Adapter.Call.{Call, ◌>>=◌, ◌>>◌, return, raise, lift, require, attempt, send}
use civic_loop.Draft.Adapter.Eventbrite.{selected, after_failure}

-- `MAX_RESPONSE_BYTES`
abbrev pub max_campaign_response : ℕ
max_campaign_response = 262_144

-- `_CONTENT_FIELDS`, in order
abbrev content_keys : List String
content_keys =
    "bccEmails" ∷ "cacheDataFeed" ∷ "campaignDataFields" ∷ "ccEmails" ∷ "dataFeedId" ∷ "dataFeedIds"
    ∷ "fromEmail" ∷ "fromName" ∷ "googleAnalyticsCampaignName" ∷ "html" ∷ "linkParams"
    ∷ "mergeDataFeedContext" ∷ "messageTypeId" ∷ "plainText" ∷ "preheaderText" ∷ "replyToEmail"
    ∷ "subject" ∷ []

abbrev campaign_keys : List String
campaign_keys =
    "id" ∷ "name" ∷ "campaignState" ∷ "messageMedium" ∷ "type" ∷ "startAt" ∷ "endedAt"
    ∷ "templateId" ∷ "listIds" ∷ "suppressionListIds" ∷ "updatedAt" ∷ "workflowId"
    ∷ "recurringCampaignId" ∷ []

abbrev pub number_or_raise : Option ℕ → Call ℕ
number_or_raise none = raise "invalid_request"
number_or_raise (some n) = return n

-- `_identifier`
abbrev pub number_id : Json → Call ℕ
number_id v = number_or_raise (number_of v)

-- `type(v) is int and v == n`
abbrev pub is_integer : Json → ℕ → Bool
is_integer (num (pos m)) n = m == n
is_integer _ n = false

abbrev text_of : Json → Option String
text_of (str s) = some s
text_of _ = none

abbrev one_of : List String → Option String → Bool
one_of names none = false
one_of names (some s) = any (str_eq s) names

abbrev pub text_or_empty : Json → String
text_or_empty (str s) = s
text_or_empty _ = ""

-- A state that the provider is known to have, or none
abbrev recognized : Option String → Option String
recognized status =
    if one_of
      ("Draft" ∷ "Ready" ∷ "Scheduled" ∷ "Running" ∷ "Finished" ∷ "Starting" ∷ "Aborted"
        ∷ "Recurring" ∷ "Archived" ∷ [])
      status
    then status
    else none

abbrev pub unsent : Fields → Bool
unsent fs =
    one_of ("Draft" ∷ "Ready" ∷ []) (text_of (value_of "campaignState" fs))
    && (is_text (value_of "type" fs) "Blast"
        && (is_text (value_of "messageMedium" fs) "Email"
            && (is_null (value_of "startAt" fs)
                && (is_null (value_of "endedAt" fs)
                    && (is_null (value_of "workflowId" fs)
                        && is_null (value_of "recurringCampaignId" fs))))))

abbrev insert_number : ℕ → List ℕ → List ℕ
insert_number n [] = n ∷ []
insert_number n (m ∷ ms) = if leb n m then n ∷ m ∷ ms else m ∷ insert_number n ms

abbrev sorted : List ℕ → List ℕ
sorted [] = []
sorted (n ∷ ns) = insert_number n (sorted ns)

abbrev same_list : List ℕ → List ℕ → Bool
same_list [] [] = true
same_list (n ∷ ns) (m ∷ ms) = (n == m) && same_list ns ms
same_list _ _ = false

abbrev same_numbers : Option (List ℕ) → Option (List ℕ) → Bool
same_numbers (some ns) (some ms) = same_list (sorted ns) (sorted ms)
same_numbers _ _ = false

abbrev list_ids : Json → Option (List ℕ)
list_ids (arr xs) = numbers_of xs
list_ids _ = none

-- The same ids in any order; those that were sent are ids, so that no other number equals one.
abbrev pub same_ids : String → Fields → Fields → Bool
same_ids key payload fs =
    same_numbers (list_ids (value_of key fs)) (list_ids (value_of key payload))

abbrev pub fields_of : Json → Fields
fields_of (obj fs) = fs
fields_of _ = end

abbrev pub get_request : Json → Target → Request
get_request region target = record {
  method = http_get;
  target = target;
  region = region;
  payload = null;
}

abbrev pub number_from : ℕ → String → Option ℕ
number_from n String.[] = some n
number_from n (String.◌∷◌ ch s) =
    if is_digit (code ch) then number_from (n * 10 + (code ch - 48)) s else none

-- `_identifier(int(campaign_id))`, of a text `[1-9][0-9]{0,18}`
abbrev pub number_text : String → Call ℕ
number_text s =
    if is_identifier s && leb (count s) 19
    then (number_or_raise (number_from 0 s) >>= λ n. number_id (num (pos n)))
    else raise "invalid_request"

module _ (l : Library) (wire : Wire) where
  unfoldable pub template_content_digest : Fields → String
  template_content_digest fs = l.sha256 (render canonical_style (obj (selected content_keys fs)))

  unfoldable pub campaign_readback : Fields → String → String
  campaign_readback fs template_digest = l.sha256 (
      render canonical_style (
        obj (
          field "campaign" (obj (selected campaign_keys fs))
            (field "template_digest" (str template_digest) end))))

  -- `_request` with GET: the paths are made of ids
  abbrev pub get_fields : Json → Target → Call Fields
  get_fields region target = do
    require (is_region region) "invalid_request"
    send wire max_campaign_response (get_request region target)

  abbrev pub post_campaign : Json → Json → Call Fields
  post_campaign region payload = do
    require (is_region region) "invalid_request"
    valid ← lift (validate_campaign payload)
    send wire max_campaign_response
        (record { method = http_post; target = campaigns_create; region = region; payload = valid })

  -- `_template`
  unfoldable pub template_digest_of : Json → ℕ → Call String
  template_digest_of region template_id = do
    fs ← get_fields region (template template_id)
    require (is_integer (value_of "templateId" fs) template_id) "identity_mismatch"
    return (template_content_digest fs)

  -- The checks of `_confirm` on a campaign that was read
  abbrev pub campaign_checked : Json → ℕ → Fields → String → String → Fields → Call Receipt
  campaign_checked region campaign_id payload digest template_digest fs = do
    require (is_integer (value_of "id" fs) campaign_id) "identity_mismatch"
    require (unsent fs) "unsafe_provider_state"
    require (json_eq (value_of "name" fs) (value_of "name" payload)) "readback_mismatch"
    require (same_ids "listIds" payload fs && same_ids "suppressionListIds" payload fs)
        "readback_mismatch"
    require (is_some (get "templateId" fs)) "unverifiable_template"
    copied ← number_id (value_of "templateId" fs)
    copied_digest ← template_digest_of region copied
    require (str_eq copied_digest template_digest) "readback_mismatch"
    return (
        confirmed_receipt (decimal campaign_id) (text_or_empty (value_of "campaignState" fs)) digest
          (campaign_readback fs template_digest))

  abbrev pub campaign_read : Json → ℕ → Fields → String → String → Fields → Call Receipt
  campaign_read region campaign_id payload digest template_digest fs =
      attempt (campaign_checked region campaign_id payload digest template_digest fs)
        (λ category. return (
          unknown_receipt (some (decimal campaign_id))
            (recognized (text_of (value_of "campaignState" fs))) digest category))
        return

  unfoldable pub confirm : Json → ℕ → Fields → String → String → Call Receipt
  confirm region campaign_id payload digest template_digest =
      attempt (get_fields region (campaign campaign_id))
        (λ category. return (unknown_receipt (some (decimal campaign_id)) none digest category))
        (campaign_read region campaign_id payload digest template_digest)

  abbrev pub credential_checked : Credential → Call (Unit {0})
  credential_checked k =
      require (not (credential_invalid "iterable" "iterable_draft_write" k)) "invalid_credential"

  abbrev pub new_id : Json → Json → Call ℕ
  new_id region payload = do fs ← post_campaign region payload; number_id (value_of "campaignId" fs)

  unfoldable pub create : Credential → Json → Json → Json → Call Receipt
  create k payload expected region = do
    valid ← lift (validate_campaign payload)
    digest ← lift (campaign_digest l region valid expected)
    credential_checked k
    source ← number_id (value_of "templateId" (fields_of valid))
    template_digest ← template_digest_of region source
    require (is_text expected template_digest) "stale_template"
    attempt (new_id region valid) (after_failure none digest)
        λ campaign_id. confirm region campaign_id (fields_of valid) digest template_digest

  abbrev pub reconciled : Credential → Option String → Json → Json → String → Json → Call Receipt
  reconciled k none payload region digest expected =
      return (unknown_receipt none none digest "human_reconciliation_required")
  reconciled k (some id) payload region digest expected = do
    campaign_id ← number_text id
    credential_checked k
    confirm region campaign_id (fields_of payload) digest (text_or_empty expected)

  unfoldable pub reconcile : Credential → Option String → Json → String → Json → Json → Call Receipt
  reconcile k campaign_id payload request_digest expected region = do
    valid ← lift (validate_campaign payload)
    digest ← lift (campaign_digest l region valid expected)
    require (str_eq digest request_digest) "invalid_request"
    reconciled k campaign_id valid region digest expected

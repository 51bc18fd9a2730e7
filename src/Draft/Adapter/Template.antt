-- ===== src/Draft/Adapter/Template.antt =====
-- `IterableTemplateAdapter` of backend/integrations/iterable_templates.py.
use civic_loop.Prelude.{
  ℕ, String, Bool, true, false, not, ◌&&◌, Option, none, some, [], ◌∷◌, all, leb, ◌==◌, str_eq,
}
use civic_loop.Json.{Json, Items, Fields, null, flag, str, arr, obj, nil, item, end, field, size}
use civic_loop.Launch.Text.{decimal}
use civic_loop.Draft.{Receipt}
use civic_loop.Draft.Review.{json_eq}
use civic_loop.Draft.Payload.{Library}
use civic_loop.Draft.Payload.Iterable.{is_region}
use civic_loop.Draft.Payload.Template.{payload_version, validate_template_payload, template_digest}
use civic_loop.Draft.Adapter.{
  http_post, client_template, template, templates_upsert, Wire, Credential, value_of, is_null,
  unknown_receipt, confirmed_receipt,
}
use civic_loop.Draft.Adapter.Call.{Call, ◌>>=◌, ◌>>◌, return, raise, lift, require, attempt, send}
use civic_loop.Draft.Adapter.Campaign.{
  max_campaign_response, number_id, is_integer, fields_of, text_or_empty, get_fields,
  template_content_digest, credential_checked,
}

-- The entries of a lookup, each with the id of a template
abbrev pub entry_id : Json → Call ℕ
entry_id (obj fs) = number_id (value_of "templateId" fs)
entry_id _ = raise "invalid_response"

abbrev pub entries_checked : Items → Call (Unit {0})
entries_checked nil = return tt
entries_checked (item v xs) = do _ ← entry_id v; entries_checked xs

abbrev pub entries_of : Json → Call Items
entries_of (arr xs) = do
  require (leb (size xs) 100) "invalid_response"
  entries_checked xs
  return xs
entries_of _ = raise "invalid_response"

-- The one template of a client, which belongs to no campaign
abbrev pub only_entry : Items → Call ℕ
only_entry (item (obj fs) nil) = do
  require (is_null (value_of "campaignId" fs)) "identity_mismatch"
  number_id (value_of "templateId" fs)
only_entry _ = raise "identity_mismatch"

-- `any(template.get(key) != value ...)`, the other way
unfoldable pub has_fields : Fields → Fields → Bool
has_fields end fs = true
has_fields (field k v rest) fs = json_eq (value_of k fs) v && has_fields rest fs

abbrev is_empty : Json → Bool
is_empty null = true
is_empty (arr nil) = true
is_empty (str s) = str_eq s ""
is_empty _ = false

abbrev is_unset : Json → Bool
is_unset null = true
is_unset (flag false) = true
is_unset _ = false

-- Nothing that was not reviewed
unfoldable pub unextended : Fields → Bool
unextended fs =
    all (λ k. is_empty (value_of k fs))
      ("bccEmails" ∷ "ccEmails" ∷ "dataFeedIds" ∷ "dataFeedId" ∷ "linkParams"
        ∷ "googleAnalyticsCampaignName" ∷ "campaignDataFields" ∷ "preheaderText" ∷ [])
    && all (λ k. is_unset (value_of k fs)) ("cacheDataFeed" ∷ "mergeDataFeedContext" ∷ [])

abbrev pub other_id : Option String → String → Bool
other_id none id = false
other_id (some s) id = not (str_eq s "") && not (str_eq s id)

module _ (l : Library) (wire : Wire) where
  -- `_request` with POST
  abbrev pub post_template : Json → Json → Call Fields
  post_template region payload = do
    require (is_region region) "invalid_request"
    valid ← lift (validate_template_payload payload)
    version ← lift (payload_version valid)
    require (version == 2) "invalid_request"
    send wire max_campaign_response
        (record { method = http_post; target = templates_upsert; region = region; payload = valid })

  -- `_lookup`: the path is made of the client's id, which the payload's check has found to be one
  abbrev pub lookup : Json → String → Call Items
  lookup region client_id = do
    fs ← get_fields l wire region (client_template client_id)
    entries_of (value_of "templates" fs)

  abbrev pub client_of : Json → String
  client_of payload = text_or_empty (value_of "clientTemplateId" (fields_of payload))

  -- The id of the template, of which the error that follows tells
  abbrev pub found_id : Json → Json → Option String → Call ℕ
  found_id region payload provider_id = do
    entries ← lookup region (client_of payload)
    template_id ← only_entry entries
    require (not (other_id provider_id (decimal template_id))) "identity_mismatch"
    return template_id

  abbrev pub template_checked : Json → Json → String → ℕ → Call Receipt
  template_checked region payload digest template_id = do
    fs ← get_fields l wire region (template template_id)
    require (is_integer (value_of "templateId" fs) template_id) "identity_mismatch"
    require (has_fields (fields_of payload) fs) "readback_mismatch"
    require (unextended fs) "readback_mismatch"
    return (
        confirmed_receipt (decimal template_id) "template" digest
          (template_content_digest l wire fs))

  unfoldable pub confirm : Json → Json → String → Option String → Call Receipt
  confirm region payload digest provider_id =
      attempt (found_id region payload provider_id)
        (λ category. return (unknown_receipt provider_id none digest category))
        λ template_id.
          attempt (template_checked region payload digest template_id)
            (λ category. return (unknown_receipt (some (decimal template_id)) none digest category))
            return

  unfoldable pub create : Credential → Json → Json → Call Receipt
  create k payload region = do
    valid ← lift (validate_template_payload payload)
    version ← lift (payload_version valid)
    require (version == 2) "invalid_request"
    digest ← lift (template_digest l region valid)
    credential_checked l wire k
    entries ← lookup region (client_of valid)
    require (size entries == 0) "unowned_collision"
    attempt (post_template region valid)
        (λ category. return (unknown_receipt none none digest category))
        λ _. confirm region valid digest none

  unfoldable pub reconcile : Credential → Json → String → Option String → Json → Call Receipt
  reconcile k payload request_digest provider_id region = do
    valid ← lift (validate_template_payload payload)
    digest ← lift (template_digest l region valid)
    require (str_eq digest request_digest) "invalid_request"
    credential_checked l wire k
    confirm region valid digest provider_id

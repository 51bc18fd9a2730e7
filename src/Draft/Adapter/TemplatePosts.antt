-- ===== src/Draft/Adapter/TemplatePosts.antt =====
-- A call of the template adapter (backend/integrations/iterable_templates.py) writes at most once, and a
-- reconciliation never.
use civic_loop.Prelude.{ℕ, arith, String, Option, none, some, not, ◌==◌, leb, str_eq}
use civic_loop.Json.{Json, Items, null, flag, num, float, str, arr, obj, nil, item, size}
use civic_loop.Launch.Text.{decimal}
use civic_loop.Draft.Payload.{Library}
use civic_loop.Draft.Payload.Iterable.{is_region}
use civic_loop.Draft.Payload.Template.{payload_version, validate_template_payload, template_digest}
use civic_loop.Draft.Adapter.{
  template, client_template, Wire, Credential, value_of, is_null, unknown_receipt,
  credential_invalid, confirmed_receipt,
}
use civic_loop.Draft.Adapter.Call.{return}
use civic_loop.Draft.Adapter.Posts.{
  Sends, after_require, after_read, after_lift, Sends-attempt, Sends-return, Sends-raise,
  send-Sends,
}
use civic_loop.Draft.Adapter.Campaign.{is_integer, fields_of, template_content_digest, get_fields}
use civic_loop.Draft.Adapter.CampaignPosts.{number_id-Sends, get_fields-Sends}
use civic_loop.Draft.Adapter.Template.{
  entry_id, entries_checked, entries_of, only_entry, has_fields, unextended, other_id,
  post_template, lookup, client_of, found_id, template_checked, confirm, create, reconcile,
}

entry_id-Sends : (v : Json) → Sends 0 (entry_id v)
entry_id-Sends (obj fs) = number_id-Sends (value_of "templateId" fs)
entry_id-Sends null = Sends-raise ℕ "invalid_response"
entry_id-Sends (flag b) = Sends-raise ℕ "invalid_response"
entry_id-Sends (num z) = Sends-raise ℕ "invalid_response"
entry_id-Sends (float s) = Sends-raise ℕ "invalid_response"
entry_id-Sends (str s) = Sends-raise ℕ "invalid_response"
entry_id-Sends (arr xs) = Sends-raise ℕ "invalid_response"

entries_checked-Sends : (xs : Items) → Sends 0 (entries_checked xs)
entries_checked-Sends nil = Sends-return tt
entries_checked-Sends (item v xs) =
    after_read 0 (entry_id v) (λ _. entries_checked xs) (entry_id-Sends v)
      λ _. entries_checked-Sends xs

entries_of-Sends : (v : Json) → Sends 0 (entries_of v)
entries_of-Sends (arr xs) = after_require 0 (leb (size xs) 100) "invalid_response" _ (
    after_read 0 (entries_checked xs) (λ _. return xs) (entries_checked-Sends xs)
      λ _. Sends-return xs)
entries_of-Sends null = Sends-raise Items "invalid_response"
entries_of-Sends (flag b) = Sends-raise Items "invalid_response"
entries_of-Sends (num z) = Sends-raise Items "invalid_response"
entries_of-Sends (float s) = Sends-raise Items "invalid_response"
entries_of-Sends (str s) = Sends-raise Items "invalid_response"
entries_of-Sends (obj fs) = Sends-raise Items "invalid_response"

only_entry-Sends : (xs : Items) → Sends 0 (only_entry xs)
only_entry-Sends (item (obj fs) nil) =
    after_require 0 (is_null (value_of "campaignId" fs)) "identity_mismatch" _
      (number_id-Sends (value_of "templateId" fs))
only_entry-Sends nil = Sends-raise ℕ "identity_mismatch"
only_entry-Sends (item v (item w xs)) = λ log. ground arith
only_entry-Sends (item v nil) = λ log. ground arith

module _ (l : Library) (wire : Wire) where
  lookup-Sends : (region : Json) (client : String) → Sends 0 (lookup l wire region client)
  lookup-Sends region client =
      after_read 0 (get_fields l wire region (client_template client)) _
        (get_fields-Sends l wire region (client_template client))
        λ fs. entries_of-Sends (value_of "templates" fs)

  confirm-Sends :
      (region payload : Json) (digest : String) (o : Option String)
      → Sends 0 (confirm l wire region payload digest o)
  unfolding confirm
  confirm-Sends region payload digest o =
      Sends-attempt 0 0 (found_id l wire region payload o) _ _
        (after_read 0 (lookup l wire region (client_of l wire payload)) _
          (lookup-Sends region (client_of l wire payload))
          λ entries. after_read 0 (only_entry entries) _ (only_entry-Sends entries) λ id.
            after_require 0 (not (other_id o (decimal id))) "identity_mismatch" _ (Sends-return id))
        (λ s. Sends-return (unknown_receipt o none digest s))
        λ id.
          Sends-attempt 0 0 (template_checked l wire region payload digest id) _ return
            (after_read 0 (get_fields l wire region (template id)) _
              (get_fields-Sends l wire region (template id))
              λ fs.
                after_require 0 (is_integer (value_of "templateId" fs) id) "identity_mismatch" _ (
                  after_require 0 (has_fields (fields_of payload) fs) "readback_mismatch" _ (
                    after_require 0 (unextended fs) "readback_mismatch" _ (
                      Sends-return (
                        confirmed_receipt (decimal id) "template" digest
                          (template_content_digest l wire fs))))))
            (λ s. Sends-return (unknown_receipt (some (decimal id)) none digest s)) Sends-return

  pub create-Sends :
      (k : Credential) (payload region : Json) → Sends 1 (create l wire k payload region)
  unfolding create
  create-Sends k payload region = after_lift 1 (validate_template_payload payload) _ λ valid.
      after_lift 1 (payload_version valid) _ λ version.
        after_require 1 (version == 2) "invalid_request" _ (
          after_lift 1 (template_digest l region valid) _ λ digest.
            after_require 1 (not (credential_invalid "iterable" "iterable_draft_write" k))
              "invalid_credential" _
              (after_read 1 (lookup l wire region (client_of l wire valid)) _
                (lookup-Sends region (client_of l wire valid))
                λ entries. after_require 1 (size entries == 0) "unowned_collision" _ (
                  Sends-attempt 1 0 (post_template l wire region valid) _ _
                    (after_require 1 (is_region region) "invalid_request" _ (
                      after_lift 1 (validate_template_payload valid) _ λ checked.
                        after_lift 1 (payload_version checked) _ λ checked_version.
                          after_require 1 (checked_version == 2) "invalid_request" _
                            (send-Sends wire _ _)))
                    (λ s. Sends-return (unknown_receipt none none digest s))
                    λ _. confirm-Sends region valid digest none)))

  pub reconcile-Sends :
      (k : Credential) (payload : Json) (request_digest : String) (o : Option String)
      (region : Json)
      → Sends 0 (reconcile l wire k payload request_digest o region)
  unfolding reconcile
  reconcile-Sends k payload request_digest o region =
      after_lift 0 (validate_template_payload payload) _ λ valid.
        after_lift 0 (template_digest l region valid) _ λ digest.
          after_require 0 (str_eq digest request_digest) "invalid_request" _ (
            after_require 0 (not (credential_invalid "iterable" "iterable_draft_write" k))
              "invalid_credential" _ (confirm-Sends region valid digest o))

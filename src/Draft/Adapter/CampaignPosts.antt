-- ===== src/Draft/Adapter/CampaignPosts.antt =====
-- A call of the campaign adapter (backend/integrations/iterable_drafts.py) writes at most once, and a
-- reconciliation never.
use civic_loop.Prelude.Int.{pos}
use civic_loop.Prelude.{ℕ, arith, String, Option, none, some, not, ◌&&◌, leb, str_eq, is_some}
use civic_loop.Json.{Json, Fields, num, get}
use civic_loop.Launch.Text.{decimal}
use civic_loop.Draft.{template}
use civic_loop.Draft.Review.{json_eq}
use civic_loop.Draft.Payload.{Library}
use civic_loop.Draft.Payload.Iterable.{number_of, is_region, validate_campaign, campaign_digest}
use civic_loop.Draft.Payload.Template.{template_digest}
use civic_loop.Draft.Payload.Eventbrite.{is_identifier}
use civic_loop.Draft.Adapter.{
  Target, template, campaign, Wire, Credential, value_of, is_text, unknown_receipt,
  credential_invalid,
}
use civic_loop.Draft.Adapter.Call.{return, raise}
use civic_loop.Draft.Adapter.Posts.{
  Sends, after_require, after_read, after_lift, Sends-bind, Sends-attempt, Sends-return,
  Sends-raise, send-Sends,
}
use civic_loop.Draft.Adapter.EventPosts.{after_failure-Sends, choice-Sends}
use civic_loop.Draft.Adapter.Eventbrite.{after_failure}
use civic_loop.Draft.Adapter.Campaign.{
  number_or_raise, number_id, is_integer, unsent, same_ids, fields_of, get_request,
  template_content_digest, get_fields, post_campaign, template_digest_of, campaign_checked,
  campaign_read, confirm, new_id, create, reconciled, reconcile, number_from, number_text,
}
use Prim.Native.String.{count}

number_or_raise-Sends : (o : Option ℕ) → Sends 0 (number_or_raise o)
number_or_raise-Sends none = Sends-raise ℕ "invalid_request"
number_or_raise-Sends (some n) = Sends-return n

pub number_id-Sends : (v : Json) → Sends 0 (number_id v)
number_id-Sends v = number_or_raise-Sends (number_of v)

number_text-Sends : (s : String) → Sends 0 (number_text s)
number_text-Sends s =
    choice-Sends (is_identifier s && leb (count s) 19) _ (raise "invalid_request")
      (after_read 0 (number_or_raise (number_from 0 s)) (λ n. number_id (num (pos n)))
        (number_or_raise-Sends (number_from 0 s)) λ n. number_id-Sends (num (pos n)))
      (Sends-raise ℕ "invalid_request")

module _ (l : Library) (wire : Wire) where
  pub get_fields-Sends : (region : Json) (t : Target) → Sends 0 (get_fields l wire region t)
  get_fields-Sends region t =
      after_require 0 (is_region region) "invalid_request" _
        (send-Sends wire _ (get_request region t))

  template_digest_of-Sends :
      (region : Json) (id : ℕ) → Sends 0 (template_digest_of l wire region id)
  unfolding template_digest_of
  template_digest_of-Sends region id =
      after_read 0 (get_fields l wire region (template id)) _
        (get_fields-Sends region (template id))
        λ fs.
          after_require 0 (is_integer (value_of "templateId" fs) id) "identity_mismatch" _
            (Sends-return (template_content_digest l wire fs))

  campaign_checked-Sends :
      (region : Json) (id : ℕ) (payload : Fields) (digest template_digest : String) (fs : Fields)
      → Sends 0 (campaign_checked l wire region id payload digest template_digest fs)
  campaign_checked-Sends region id payload digest template_digest fs =
      after_require 0 (is_integer (value_of "id" fs) id) "identity_mismatch" _ (
        after_require 0 (unsent fs) "unsafe_provider_state" _ (
          after_require 0 (json_eq (value_of "name" fs) (value_of "name" payload))
            "readback_mismatch" _
            (after_require 0
              (same_ids "listIds" payload fs && same_ids "suppressionListIds" payload fs)
              "readback_mismatch" _
              (after_require 0 (is_some (get "templateId" fs)) "unverifiable_template" _ (
                after_read 0 (number_id (value_of "templateId" fs)) _
                  (number_id-Sends (value_of "templateId" fs))
                  λ copied.
                    after_read 0 (template_digest_of l wire region copied) _
                      (template_digest_of-Sends region copied)
                      λ copied_digest.
                        after_require 0 (str_eq copied_digest template_digest) "readback_mismatch" _
                          (λ log. omega arith))))))

  confirm-Sends :
      (region : Json) (id : ℕ) (payload : Fields) (digest template_digest : String)
      → Sends 0 (confirm l wire region id payload digest template_digest)
  unfolding confirm
  confirm-Sends region id payload digest template_digest =
      Sends-attempt 0 0 (get_fields l wire region (campaign id)) _
        (campaign_read l wire region id payload digest template_digest)
        (get_fields-Sends region (campaign id))
        (λ s. Sends-return (unknown_receipt (some (decimal id)) none digest s))
        λ fs.
          Sends-attempt 0 0 (campaign_checked l wire region id payload digest template_digest fs) _
            return (campaign_checked-Sends region id payload digest template_digest fs)
            (λ s log. omega arith) Sends-return

  new_id-Sends : (region payload : Json) → Sends 1 (new_id l wire region payload)
  new_id-Sends region payload =
      Sends-bind 1 0 (post_campaign l wire region payload) _
        (after_require 1 (is_region region) "invalid_request" _
          (after_lift 1 (validate_campaign payload) _ λ valid. send-Sends wire _ _))
        λ fs. number_id-Sends (value_of "campaignId" fs)

  pub create-Sends :
      (k : Credential) (payload expected region : Json)
      → Sends 1 (create l wire k payload expected region)
  unfolding create
  create-Sends k payload expected region = after_lift 1 (validate_campaign payload) _ λ valid.
      after_lift 1 (campaign_digest l region valid expected) _ λ digest.
        after_require 1 (not (credential_invalid "iterable" "iterable_draft_write" k))
          "invalid_credential" _
          (after_read 1 (number_id (value_of "templateId" (fields_of valid))) _
            (number_id-Sends (value_of "templateId" (fields_of valid)))
            λ source.
              after_read 1 (template_digest_of l wire region source) _
                (template_digest_of-Sends region source)
                λ template_digest.
                  after_require 1 (is_text expected template_digest) "stale_template" _ (
                    Sends-attempt 1 0 (new_id l wire region valid) (after_failure none digest) _
                      (new_id-Sends region valid) (after_failure-Sends none digest)
                      λ id. confirm-Sends region id (fields_of valid) digest template_digest))

  reconciled-Sends :
      (k : Credential) (o : Option String) (payload region : Json) (digest : String)
      (expected : Json)
      → Sends 0 (reconciled l wire k o payload region digest expected)
  reconciled-Sends k none payload region digest expected =
      Sends-return (unknown_receipt none none digest "human_reconciliation_required")
  reconciled-Sends k (some id) payload region digest expected =
      after_read 0 (number_text id) _ (number_text-Sends id) λ n.
        after_require 0 (not (credential_invalid "iterable" "iterable_draft_write" k))
          "invalid_credential" _ (confirm-Sends region n (fields_of payload) digest _)

  pub reconcile-Sends :
      (k : Credential) (o : Option String) (payload : Json) (request_digest : String)
      (expected region : Json)
      → Sends 0 (reconcile l wire k o payload request_digest expected region)
  unfolding reconcile
  reconcile-Sends k o payload request_digest expected region =
      after_lift 0 (validate_campaign payload) _ λ valid.
        after_lift 0 (campaign_digest l region valid expected) _ λ digest.
          after_require 0 (str_eq digest request_digest) "invalid_request" _
            (reconciled-Sends k o valid region digest expected)

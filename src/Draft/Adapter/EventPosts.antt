-- ===== src/Draft/Adapter/EventPosts.antt =====
-- A call of the Eventbrite adapter (backend/integrations/eventbrite_drafts.py) writes at most once, and a
-- reconciliation never.
use civic_loop.Prelude.{String, Bool, true, false, Option, none, some, not, str_eq, if◌then◌else◌}
use civic_loop.Json.{Json, Fields, null, flag, num, float, str, arr, obj}
use civic_loop.Draft.{Receipt}
use civic_loop.Draft.Payload.{Library}
use civic_loop.Draft.Payload.Eventbrite.{is_identifier}
use civic_loop.Draft.Adapter.{
  http_get, http_post, Request, Wire, is_rejection, Credential, value_of,
}
use civic_loop.Draft.Adapter.{unknown_receipt, confirmed_receipt, credential_invalid}
use civic_loop.Draft.Payload.Eventbrite.{validate_payload, compute_request_digest}
use civic_loop.Draft.Adapter.Eventbrite.{reconciled, updated_event, reads_back, event_fields}
use civic_loop.Draft.Service.{is_digest}
use civic_loop.Draft.Adapter.Call.{Call, return, raise}
use civic_loop.Draft.Adapter.Posts.{
  after_require, after_read, after_lift, Sends, weight, Sends-attempt, Sends-return, Sends-raise,
  Sends-require, send-Sends,
}
use civic_loop.Draft.Adapter.Eventbrite.{
  text_id, check_draft, after_failure, request, event_request, read_event, read_back, confirm,
  create, update, reconcile, created, updated, readback_digest, mismatched, unsafe_state,
  create_request,
}

pub choice-Sends :
    {A : Type 0} (b : Bool) (m k : Call A) → Sends 0 m → Sends 0 k → Sends 0 (if b then m else k)
choice-Sends true m k h j = h
choice-Sends false m k h j = j

text_id-Sends : (v : Json) → Sends 0 (text_id v)
text_id-Sends (str s) =
    choice-Sends (is_identifier s) (return s) (raise "invalid_request") (Sends-return s)
      (Sends-raise String "invalid_request")
text_id-Sends null = Sends-raise String "invalid_request"
text_id-Sends (flag b) = Sends-raise String "invalid_request"
text_id-Sends (num z) = Sends-raise String "invalid_request"
text_id-Sends (float s) = Sends-raise String "invalid_request"
text_id-Sends (arr xs) = Sends-raise String "invalid_request"
text_id-Sends (obj fs) = Sends-raise String "invalid_request"

pub after_failure-Sends :
    (event_id : Option String) (digest s : String) → Sends 0 (after_failure event_id digest s)
after_failure-Sends event_id digest s =
    choice-Sends (is_rejection s) (raise s) (return (unknown_receipt event_id none digest s))
      (Sends-raise Receipt s) (Sends-return (unknown_receipt event_id none digest s))

check_draft-Sends :
    (organization_id event_id : String) (fs : Fields)
    → Sends 0 (check_draft organization_id event_id fs)
unfolding check_draft
check_draft-Sends organization_id event_id fs =
    after_read 0 (text_id (value_of "id" fs)) _ (text_id-Sends (value_of "id" fs)) λ id.
      after_require 0 (not (mismatched organization_id event_id fs id)) "identity_mismatch" _
        (Sends-require (not (unsafe_state fs)) "unsafe_provider_state")

module _ (l : Library) (wire : Wire) where
  request-Sends : (id : String) (r : Request) → Sends (weight r.method) (request l wire id r)
  request-Sends id r =
      after_require (weight r.method) (is_identifier id) "invalid_request" _ (send-Sends wire _ r)

  confirm-Sends :
      (organization_id event_id : String) (payload : Json) (digest : String)
      → Sends 0 (confirm l wire organization_id event_id payload digest)
  unfolding confirm
  confirm-Sends organization_id event_id payload digest =
      Sends-attempt 0 0 (read_back l wire organization_id event_id payload digest) _ return
        (after_read 0 (read_event l wire event_id) _
          (request-Sends event_id (event_request http_get event_id null))
          λ fs.
            after_read 0 (check_draft organization_id event_id fs) _
              (check_draft-Sends organization_id event_id fs)
              λ _. after_require 0 (reads_back (event_fields payload) fs) "readback_mismatch" _ (
                Sends-return
                  (confirmed_receipt event_id "draft" digest (readback_digest l wire fs))))
        (λ s. Sends-return (unknown_receipt (some event_id) none digest s)) Sends-return

  updated-Sends :
      (organization_id event_id : String) (payload : Json) (digest : String) (fs : Fields)
      → Sends 0 (updated l wire organization_id event_id payload digest fs)
  updated-Sends organization_id event_id payload digest fs =
      Sends-attempt 0 0 (check_draft organization_id event_id fs)
        (after_failure (some event_id) digest) _ (check_draft-Sends organization_id event_id fs)
        (after_failure-Sends (some event_id) digest)
        λ _. confirm-Sends organization_id event_id payload digest

  created-Sends :
      (organization_id : String) (payload : Json) (digest : String) (fs : Fields)
      → Sends 0 (created l wire organization_id payload digest fs)
  created-Sends organization_id payload digest fs =
      Sends-attempt 0 0 (text_id (value_of "id" fs)) (after_failure none digest) _
        (text_id-Sends (value_of "id" fs)) (after_failure-Sends none digest)
        λ event_id. updated-Sends organization_id event_id payload digest fs

  pub create-Sends :
      (k : Credential) (organization_id : String) (payload : Json)
      → Sends 1 (create l wire k organization_id payload)
  unfolding create
  create-Sends k organization_id payload = after_lift 1 (validate_payload l payload true) _ λ valid.
      after_lift 1 (compute_request_digest l "create" organization_id none valid) _ λ digest.
        after_require 1 (not (credential_invalid "eventbrite" "eventbrite_draft_write" k))
          "invalid_credential" _
          (Sends-attempt 1 0 (request l wire organization_id (create_request organization_id valid))
            (after_failure none digest) _
            (request-Sends organization_id (create_request organization_id valid))
            (after_failure-Sends none digest) (created-Sends organization_id valid digest))

  pub update-Sends :
      (k : Credential) (organization_id event_id : String) (payload : Json) (expected : String)
      → Sends 1 (update l wire k organization_id event_id payload expected)
  unfolding update
  update-Sends k organization_id event_id payload expected =
      after_lift 1 (validate_payload l payload false) _ λ valid.
        after_lift 1 (compute_request_digest l "update" organization_id (some event_id) valid) _
          λ digest. after_require 1 (is_digest expected) "invalid_request" _ (
            after_require 1 (not (credential_invalid "eventbrite" "eventbrite_draft_write" k))
              "invalid_credential" _
              (after_read 1 (read_event l wire event_id) _
                (request-Sends event_id (event_request http_get event_id null))
                λ before.
                  after_read 1 (check_draft organization_id event_id before) _
                    (check_draft-Sends organization_id event_id before)
                    λ _.
                      after_require 1 (str_eq (readback_digest l wire before) expected)
                        "stale_revision" _
                        (Sends-attempt 1 0
                          (request l wire event_id (event_request http_post event_id valid))
                          (after_failure (some event_id) digest) _
                          (request-Sends event_id (event_request http_post event_id valid))
                          (after_failure-Sends (some event_id) digest)
                          (updated-Sends organization_id event_id valid digest))))

  reconciled-Sends :
      (k : Credential) (organization_id : String) (o : Option String) (payload : Json)
      (digest : String)
      → Sends 0 (reconciled l wire k organization_id o payload digest)
  reconciled-Sends k organization_id none payload digest =
      Sends-return (unknown_receipt none none digest "human_reconciliation_required")
  reconciled-Sends k organization_id (some event_id) payload digest =
      after_require 0 (is_identifier event_id) "invalid_request" _ (
        after_require 0 (not (credential_invalid "eventbrite" "eventbrite_draft_write" k))
          "invalid_credential" _ (confirm-Sends organization_id event_id payload digest))

  pub reconcile-Sends :
      (k : Credential) (organization_id : String) (o : Option String) (payload : Json)
      (request_digest action : String)
      → Sends 0 (reconcile l wire k organization_id o payload request_digest action)
  unfolding reconcile
  reconcile-Sends k organization_id o payload request_digest action =
      after_lift 0 (validate_payload l payload (str_eq action "create")) _ λ valid.
        after_lift 0
          (compute_request_digest l action organization_id (updated_event l wire action o) valid) _
          λ digest.
            after_require 0 (str_eq digest request_digest) "invalid_request" _
              (reconciled-Sends k organization_id o valid digest)

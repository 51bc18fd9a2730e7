-- ===== src/Draft/Review.antt =====
-- `_review` and `_iterable_review` of backend/integrations/draft_operations.py: what an execution
-- is reviewed as. JSON values are compared by their canonical encodings, which tell 1, 1.0 and true apart.
use civic_loop.Prelude.Int.{pos}
use civic_loop.Prelude.Result.{Result, ok, err, ◌>>=◌, ◌>>◌, refuse, demand}
use civic_loop.Prelude.Table.{find}
use civic_loop.Prelude.{
  [], ◌∷◌, length, all, ℕ, String, Bool, true, false, not, ◌&&◌, ◌||◌, Option, none, some, List,
  ◌==◌, str_eq, is_some, if◌then◌else◌,
}
use civic_loop.Json.{
  Json, Fields, null, flag, num, float, str, arr, obj, nil, end, field, width, get, dumps,
}
use civic_loop.Draft.{
  Error, permission_denied, does_not_exist, key_error, type_error, User, Intent, Run, Kind, draft,
  template, Execution, World, Contracts,
}
use civic_loop.Draft.Acceptance.{digest, id_of, validate_intent}

abbrev pub json_eq : Json → Json → Bool
json_eq a b = str_eq (dumps a) (dumps b)

-- `bool(value)`
abbrev pub truthy : Json → Bool
truthy null = false
truthy (flag b) = b
truthy (num (pos n)) = not (n == 0)
truthy (num _) = true
truthy (float s) = not (str_eq s "0.0" || str_eq s "-0.0")
truthy (str s) = not (str_eq s "")
truthy (arr nil) = false
truthy (arr _) = true
truthy (obj end) = false
truthy (obj _) = true

-- `event_id or None`
abbrev or_none : String → Option String
or_none s = if str_eq s "" then none else some s

-- `payload[key]`
abbrev pub item_of : Json → String → Result Error Json
item_of (obj fs) key = demand (get key fs) key_error
item_of _ key = err type_error

abbrev pub sender_of : Json → Result Error Json
sender_of payload = do
  from_email ← item_of payload "fromEmail"
  from_name ← item_of payload "fromName"
  reply_to ← item_of payload "replyToEmail"
  message_type ← item_of payload "messageTypeId"
  ok (
      obj (
        field "fromEmail" from_email (
          field "fromName" from_name
            (field "replyToEmail" reply_to (field "messageTypeId" message_type end)))))

-- The step that a digest of an Iterable review names
abbrev step_name : Kind → String
step_name draft = "campaign"
step_name template = "template"

-- `set(configuration) != keys`, for a dictionary: its keys differ
abbrev pub not_exact : List String → Fields → Bool
not_exact keys fs = not ((width fs == length keys) && all (λ k. is_some (get k fs)) keys)

-- `type(configuration) is not dict`
abbrev dictionary : Json → Result Error Fields
dictionary (obj fs) = ok fs
dictionary _ = err permission_denied

abbrev not_create : Execution → Bool
not_create operation =
    not (str_eq operation.action "create")
    || (not (str_eq operation.organization_id "")
        || (not (str_eq operation.event_id "")
            || not (str_eq operation.expected_readback_digest "")))

module _ (c : Contracts) (w : World) where
  abbrev pub intent_of : Execution → Result Error Intent
  intent_of operation =
      demand (find (λ (x : Intent). x.id) operation.intent_id w.intents) does_not_exist

  abbrev pub run_of : Execution → Result Error Run
  run_of operation = demand (find (λ (x : Run). x.id) operation.run_id w.runs) does_not_exist

  abbrev pub user_of : ℕ → Result Error User
  user_of id = demand (find (λ (x : User). x.id) id w.users) does_not_exist

  abbrev review_of : Intent → Execution → String → String → Json
  review_of intent operation revision_digest request = obj (
      field "intent" (id_of c intent.id) (
        field "run" (id_of c operation.run_id) (
          field "revision" (num (pos intent.revision_id)) (
            field "revision_digest" (str revision_digest) (
              field "action_digest" (str intent.action_digest) (
                field "idempotency_key" (str intent.idempotency_key) (
                  field "request_digest" (str request) (
                    field "expected_readback_digest" (str operation.expected_readback_digest)
                      end))))))))

  -- `_review`, of an execution that has its arguments
  unfoldable pub review : Intent → Run → Execution → Result Error (String × String)
  review intent run operation = do
    revision_digest ← validate_intent c intent run w
    request ←
        c.request_digest operation.action operation.organization_id (or_none operation.event_id)
          operation.payload
    review_digest ← digest c (review_of intent operation revision_digest request)
    ok (request, review_digest)

  abbrev pub iterable_review_of : Kind → Intent → Execution → String → String → Json
  iterable_review_of kind intent operation revision_digest request = obj (
      field "intent" (id_of c operation.intent_id) (
        field "run" (id_of c operation.run_id) (
          field "revision" (num (pos intent.revision_id)) (
            field "revision_digest" (str revision_digest) (
              field "action_digest" (str intent.action_digest) (
                field "idempotency_key" (str intent.idempotency_key) (
                  field "step" (str (step_name kind))
                    (field "request_digest" (str request) end))))))))

  -- The request of a template
  abbrev template_request : Intent → Execution → Fields → Result Error String
  template_request intent operation configuration = do
    refuse (not_exact ("region" ∷ []) configuration) permission_denied
    sender ← sender_of operation.payload
    version ← c.payload_version operation.payload
    expected ← c.author_payload intent sender version
    refuse (not (json_eq operation.payload expected)) permission_denied
    region ← demand (get "region" configuration) key_error
    c.template_request_digest region operation.payload

  -- The start of `_iterable_review`, which answers the digest of the revision and the configuration
  abbrev pub iterable_start : Intent → Execution → Result Error (String × Fields)
  iterable_start intent operation = do
    run ← run_of operation
    revision_digest ← validate_intent c intent run w
    configuration ← dictionary operation.provider_configuration
    refuse (not_create operation) permission_denied
    ok (revision_digest, configuration)

  -- `_iterable_review` of a template
  unfoldable pub template_review : Intent → Execution → Result Error (String × String)
  template_review intent operation = do
    (revision_digest, configuration) ← iterable_start intent operation
    request ← template_request intent operation configuration
    review_digest ← digest c (iterable_review_of template intent operation revision_digest request)
    ok (request, review_digest)

-- ===== src/Broker/Tools.antt =====
-- `_execute`, `_proposal` and `_operation_payload` of backend/agents/mcp.py: what each tool answers and
-- writes. The tools write submissions and operations only.
use civic_loop.Prelude.Result.{Result, ok, err, ◌>>=◌, ◌>>◌, refuse, demand}
use civic_loop.Prelude.{
  ℕ, suc, String, Bool, true, false, not, ◌&&◌, Option, none, some, List, [], ◌∷◌, ◌++◌, any, leb,
  ◌==◌, str_eq, if◌then◌else◌,
}
use civic_loop.Json.{Json, Items, Fields, null, flag, str, arr, obj, nil, item, end, field, get}
use civic_loop.Tool.{Invalid, validate, proposal as proposal_schema}
use civic_loop.Capability.{WorkflowCapability, first}
use civic_loop.Draft.{Proposal, Intent}
use civic_loop.Broker.{
  Refusal, denied, invalid_arguments, ToolWorkflow, Submission, Hashes, bounded, digest, argument,
  id_json, number,
}
use Prim.Native.String.{count}

abbrev pub Written : Type 0
Written = Json × (List Submission × List Intent)

abbrev allowed : List String
allowed =
    "title" ∷ "date" ∷ "start_time" ∷ "end_time" ∷ "timezone" ∷ "venue_name" ∷ "venue_address"
    ∷ "access_instructions" ∷ "signup_url" ∷ "city" ∷ "region" ∷ "country" ∷ []

abbrev short_text : Json → Bool
short_text (str s) = leb (count s) 4_000
short_text _ = false

-- The facts of an event that a tool may see
abbrev pub facts : Fields → Fields
facts end = end
facts (field k v fs) =
    let rest = facts fs in if any (str_eq k) allowed && short_text v then field k v rest else rest

abbrev snapshot_fields : Json → Result Refusal Fields
snapshot_fields (obj fs) = ok fs
snapshot_fields _ = err invalid_arguments

abbrev prohibited : Items
prohibited = item (str "publish") (
    item (str "schedule") (
      item (str "send") (
        item (str "ticket_economics")
          (item (str "create_segment") (item (str "export_constituents") nil)))))

abbrev policy : Bool → Json
policy is_synthetic = obj (
    field "policy_version" (str "mcp-drafts-v1") (
      field "provider_execution_allowed" (flag false) (
        field "approval_required"
          (str (
            if is_synthetic
            then "four_eyes_exact_revision_and_action_digest"
            else "owner_exact_revision_and_action_digest_audience_policy_review"))
          (field "prohibited_actions" (arr prohibited) end))))

abbrev json_argument : String → Fields → Json
json_argument key fs = go (get key fs)
  where
    go : Option Json → Json
    go none = null
    go (some v) = v

-- The operation kinds of a provider
abbrev pub kinds : String → List String
kinds provider =
    if str_eq provider "eventbrite"
    then "create_eventbrite_draft" ∷ []
    else "create_iterable_email_draft" ∷ "create_iterable_reminder_draft" ∷ []

module _ (h : Hashes) where
  -- `_operation_payload`
  abbrev operation_payload : Intent → Json
  operation_payload operation = obj (
      field "operation_id" (id_json h operation.id) (
        field "workflow_id" (id_json h operation.workflow_id) (
          field "revision_id" (number operation.revision_id) (
            field "provider" (str operation.provider) (
              field "operation_kind" (str operation.operation_kind) (
                field "action_digest" (str operation.action_digest) (
                  field "idempotency_key" (str operation.idempotency_key) (
                    field "status" (str operation.status) (
                      field "approval" null
                        (field "receipt" null (field "schema_version" (str "1.0") end)))))))))))

  abbrev pub is_own : WorkflowCapability → String → Submission → Bool
  is_own capability id s =
      str_eq (h.id_text s.id) id
      && (str_eq s.proposal.kind "proposal"
          && ((s.proposal.capability.workflow_id == capability.workflow_id)
              && ((s.proposal.capability.revision_id == capability.revision_id)
                  && (str_eq s.proposal.capability.revision_digest capability.revision_digest
                      && (s.proposal.capability.actor_id == capability.actor_id)))))

  -- `_proposal`
  abbrev pub own_proposal :
      Fields → WorkflowCapability → List Submission → Result Refusal Submission
  own_proposal fs capability submissions = do
    found ←
        demand (first (is_own capability (argument "proposal_id" fs)) submissions)
          (denied "proposal_unavailable")
    content ← digest h found.proposal.content
    refuse (not (str_eq found.proposal.digest content)) (denied "proposal_integrity")
    ok found

  abbrev pub action_json : WorkflowCapability → String → String → String → Json
  action_json capability provider kind proposal_digest = obj (
      field "workflow_id" (id_json h capability.workflow_id) (
        field "revision_id" (number capability.revision_id) (
          field "revision_digest" (str capability.revision_digest) (
            field "provider" (str provider) (
              field "operation_kind" (str kind)
                (field "proposal_digest" (str proposal_digest) end))))))

  abbrev pub idempotency_json : WorkflowCapability → String → String → Json
  idempotency_json capability kind action = arr (
      item (id_json h capability.workflow_id) (
        item (number capability.revision_id)
          (item (id_json h capability.actor_id) (item (str kind) (item (str action) nil)))))

  abbrev pub new_operation :
      ℕ → WorkflowCapability → Proposal → String → String → String → String → Intent
  new_operation id capability proposal provider kind action idem = record {
    id = id;
    workflow_id = capability.workflow_id;
    revision_id = capability.revision_id;
    actor_id = capability.actor_id;
    proposal = proposal;
    provider = provider;
    operation_kind = kind;
    action_digest = action;
    idempotency_key = idem;
    status = "pending";
    approval_id = none;
    receipt = none;
  }

  -- `get_or_create` by the idempotency key
  abbrev pub stored_operation : Option Intent → Intent → List Intent → Intent × List Intent
  stored_operation (some existing) operation operations = (existing, operations)
  stored_operation none operation operations = (operation, operations ++ operation ∷ [])

  abbrev pub request_operations :
      List String
      → ℕ
      → WorkflowCapability
      → Proposal
      → String
      → List Intent
      → Result Refusal (Items × List Intent)
  request_operations [] id capability proposal provider operations = ok (nil, operations)
  request_operations (kind ∷ rest) id capability proposal provider operations = do
    action ← digest h (action_json capability provider kind proposal.digest)
    idem ← digest h (idempotency_json capability kind action)
    let (operation, held) =
        stored_operation (first (λ (x : Intent). str_eq x.idempotency_key idem) operations)
          (new_operation id capability proposal provider kind action idem) operations
    (payloads, after) ← request_operations rest (suc id) capability proposal provider held
    ok (item (operation_payload operation) payloads, after)

  abbrev submitted_content : Bool → Fields → Json
  submitted_content is_clarification fs =
      json_argument (if is_clarification then "questions" else "proposal") fs

  abbrev kind_name : Bool → String
  kind_name is_clarification = if is_clarification then "clarification" else "proposal"

  abbrev id_key : Bool → String
  id_key is_clarification = if is_clarification then "clarification_id" else "proposal_id"

  abbrev digest_key : Bool → String
  digest_key is_clarification =
      if is_clarification then "clarification_digest" else "proposal_digest"

  abbrev submit :
      Bool
      → ℕ
      → Fields
      → WorkflowCapability
      → List Submission
      → List Intent
      → Result Refusal Written
  submit is_clarification id fs capability submissions operations = do
    content ← digest h (submitted_content is_clarification fs)
    let row : Submission = record {
      id = id;
      proposal = record {
        capability = capability;
        kind = kind_name is_clarification;
        content = submitted_content is_clarification fs;
        digest = content;
      };
    }
    ok (
      obj (
          field (id_key is_clarification) (id_json h id) (
            field (digest_key is_clarification) (str content)
              (field "status" (str "pending") (field "content_trust" (str "untrusted") end)))),
      (submissions ++ row ∷ [], operations),
    )

  abbrev event_revision : ToolWorkflow → Result Refusal Json
  event_revision workflow = do
    _ ← bounded workflow.snapshot
    fs ← snapshot_fields workflow.snapshot
    ok (
        obj (
          field "revision_id" (number workflow.revision_id)
            (field "event" (obj (facts fs)) (field "content_trust" (str "untrusted") end))))

  abbrev own_operation : WorkflowCapability → String → Intent → Bool
  own_operation capability id x =
      str_eq (h.id_text x.id) id
      && ((x.workflow_id == capability.workflow_id)
          && ((x.revision_id == capability.revision_id)
              && ((x.actor_id == capability.actor_id)
                  && str_eq x.proposal.capability.revision_digest capability.revision_digest)))

  abbrev schema_check : Result Invalid (Unit {0}) → Result Refusal (Unit {0})
  schema_check (ok a) = ok tt
  schema_check (err e) = err invalid_arguments

  abbrev validated : Submission → Bool → Result Refusal Json
  validated found is_synthetic = do
    schema_check (validate found.proposal.content proposal_schema)
    ok (
        obj (
          field "proposal_id" (id_json h found.id) (
            field "schema_valid" (flag true) (
              field "execution_authorized" (flag false) (
                field "required_review"
                  (str (
                    if is_synthetic
                    then "deterministic_policy_and_four_eyes"
                    else "owner_exact_draft_approval_and_deferred_audience_policy"))
                  end)))))

  abbrev of_proposal :
      String
      → ℕ
      → Fields
      → WorkflowCapability
      → ToolWorkflow
      → List Submission
      → List Intent
      → Result Refusal Written
  of_proposal tool id fs capability workflow submissions operations = do
    found ← own_proposal fs capability submissions
    if str_eq tool "validate_proposal"
        then (validated found workflow.is_synthetic >>= λ r. ok (r, (submissions, operations)))
        else (requested
            (if str_eq tool "request_eventbrite_draft" then "eventbrite" else "iterable") found)
    where
      requested : String → Submission → Result Refusal Written
      requested provider found =
          request_operations (kinds provider) id capability found.proposal provider operations
          >>= λ (payloads, after).
              ok (obj (field "operations" (arr payloads) end), (submissions, after))

  unfoldable pub execute :
      String
      → ℕ
      → Fields
      → WorkflowCapability
      → ToolWorkflow
      → List Submission
      → List Intent
      → Result Refusal Written
  execute tool id fs capability workflow submissions operations =
      if str_eq tool "get_event_revision"
      then (event_revision workflow >>= λ r. ok (r, (submissions, operations)))
      else if str_eq tool "get_policy_context"
      then ok (policy workflow.is_synthetic, (submissions, operations))
      else if str_eq tool "request_clarification"
      then submit true id fs capability submissions operations
      else if str_eq tool "propose_campaign_drafts"
      then submit false id fs capability submissions operations
      else if str_eq tool "get_operation_status"
      then (demand (first (own_operation capability (argument "operation_id" fs)) operations)
            (denied "operation_unavailable")
          >>= λ x. ok (operation_payload x, (submissions, operations)))
      else of_proposal tool id fs capability workflow submissions operations

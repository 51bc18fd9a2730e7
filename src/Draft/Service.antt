-- ===== src/Draft/Service.antt =====
-- `submit_draft`, `submit_template`, `approve_draft` and `approve_template` of
-- backend/integrations/draft_operations.py. Each is one transaction; the new row's id is given.
use civic_loop.Prelude.Result.{Result, ok, err, ◌>>=◌, ◌>>◌, refuse, demand}
use civic_loop.Prelude.Table.{find}
use civic_loop.Prelude.{
  ℕ, String, Bool, true, not, ◌&&◌, ◌||◌, Option, none, some, List, ◌==◌, leb, str_eq,
  if◌then◌else◌,
}
use civic_loop.Json.{Json, obj, end, field}
use civic_loop.Capability.{first}
use civic_loop.Draft.{
  Error, permission_denied, does_not_exist, pending, approved, status_eq, Kind, draft, template,
  operator, User, Workflow, Intent, Run, Execution, World, Store, Contracts,
}
use civic_loop.Draft.Acceptance.{actor_of, session_of}
use civic_loop.Draft.Review.{truthy, review, template_review}
use civic_loop.Draft.Validation.{caught, campaign_review, validate_execution}
use civic_loop.Draft.Rows.{key, rows, with_rows, save_execution}
use Prim.Native.Char.{Char, code}
use Prim.Native.String.{count}

-- What a caller submits for an intent.
pub record Submission : Type 0 where
  pub intent_id : ℕ
  pub run_id : ℕ
  pub action : String
  pub organization_id : String
  pub payload : Json
  pub event_id : String
  pub expected_readback_digest : String
  pub provider_configuration : Json

abbrev hex_digit : Char → Bool
hex_digit ch = (leb 48 (code ch) && leb (code ch) 57) || (leb 97 (code ch) && leb (code ch) 102)

abbrev all_hex : String → Bool
all_hex String.[] = true
all_hex (String.◌∷◌ ch s) = hex_digit ch && all_hex s

abbrev pub is_digest : String → Bool
is_digest s = (count s == 64) && all_hex s

-- A new row, before its digests are known
abbrev pub new_execution : ℕ → ℕ → Submission → Execution
new_execution id user_id r = record {
  id = id;
  intent_id = r.intent_id;
  run_id = r.run_id;
  submitter_id = user_id;
  approver_id = none;
  action = r.action;
  organization_id = r.organization_id;
  event_id = r.event_id;
  expected_readback_digest = r.expected_readback_digest;
  provider_configuration = r.provider_configuration;
  payload = r.payload;
  request_digest = "";
  review_digest = "";
  status = pending;
  receipt = none;
  provider_id = "";
  error_category = "";
  approved_at = none;
  approval_session_id = none;
  claimed_at = none;
  completed_at = none;
}

-- The row of an intent is answered if its review is the same, and written if there is none.
abbrev pub stored :
    Kind → User → Execution → Option Execution → Store → Result Error (Execution × Store)
stored kind user operation none s =
    save_execution operation (rows kind s) >>= λ xs. ok (operation, with_rows kind xs s)
stored kind user operation (some existing) s = do
  refuse
      (not (str_eq existing.review_digest operation.review_digest)
        || not (existing.submitter_id == user.id))
      permission_denied
  ok (existing, s)

-- `except IterableDraftError, KeyError, TypeError, TemplateExecution.DoesNotExist`
abbrev pub caught_missing {ℓ} : {A : Type ℓ} → Result Error A → Result Error A
caught_missing (err does_not_exist) = err permission_denied
caught_missing m = caught m

module _ (c : Contracts) (now : ℕ) (w : World) where
  abbrev pub intent_row : ℕ → Result Error Intent
  intent_row id = demand (find (λ (x : Intent). x.id) id w.intents) does_not_exist

  abbrev pub run_row : ℕ → Result Error Run
  run_row id = demand (find (λ (x : Run). x.id) id w.runs) does_not_exist

  abbrev pub lock_workflow : ℕ → Result Error Workflow
  lock_workflow id = demand (find (λ (x : Workflow). x.id) id w.workflows) does_not_exist

  abbrev pub iterable_review :
      Kind → List Execution → Intent → Execution → Result Error (String × String)
  iterable_review draft templates intent operation =
      campaign_review c now w templates intent operation
  iterable_review template templates intent operation = template_review c w intent operation

  unfoldable pub new_iterable_operation :
      Kind → ℕ → User → Submission → Store → Result Error (Execution × Store)
  new_iterable_operation kind id user r s = do
    actor ← actor_of user operator w
    intent ← intent_row r.intent_id
    _ ← lock_workflow intent.workflow_id
    refuse (not (str_eq intent.provider "iterable") || not (actor.id == intent.actor_id))
        permission_denied
    _ ← run_row r.run_id
    let operation = new_execution id user.id r
    (request, review_digest) ← caught_missing (iterable_review kind s.templates intent operation)
    stored kind user (record operation { request_digest = request; review_digest = review_digest })
        (first (λ (x : Execution). x.intent_id == r.intent_id) (rows kind s)) s

  abbrev pub submit_iterable_campaign :
      ℕ → User → Submission → Store → Result Error (Execution × Store)
  submit_iterable_campaign id user r s = do
    refuse
        (not (str_eq r.action "create")
          || (not (str_eq r.organization_id "")
              || (not (str_eq r.event_id "") || not (str_eq r.expected_readback_digest ""))))
        permission_denied
    new_iterable_operation draft id user r s

  abbrev pub submit_eventbrite : ℕ → User → Submission → Store → Result Error (Execution × Store)
  submit_eventbrite id user r s = do
    refuse (truthy r.provider_configuration) permission_denied
    actor ← actor_of user operator w
    intent ← intent_row r.intent_id
    _ ← lock_workflow intent.workflow_id
    run ← run_row r.run_id
    refuse (not (actor.id == intent.actor_id)) permission_denied
    refuse (str_eq r.action "update" && not (is_digest r.expected_readback_digest))
        permission_denied
    refuse (str_eq r.action "create" && not (str_eq r.expected_readback_digest ""))
        permission_denied
    payload ← c.validate_payload r.payload (str_eq r.action "create")
    let operation =
        new_execution id user.id (record r { payload = payload; provider_configuration = obj end })
    (request, review_digest) ← review c w intent run operation
    stored draft user (record operation { request_digest = request; review_digest = review_digest })
        (first (λ (x : Execution). x.intent_id == r.intent_id) s.drafts) s

  unfoldable pub submit_draft : ℕ → User → Submission → Store → Result Error (Execution × Store)
  submit_draft id user r s = do
    intent ← intent_row r.intent_id
    if str_eq intent.provider "iterable"
        then submit_iterable_campaign id user r s
        else submit_eventbrite id user r s

  unfoldable pub submit_template :
      ℕ → User → ℕ → ℕ → Json → Json → Store → Result Error (Execution × Store)
  submit_template id user intent_id run_id sender region s = do
    intent ← intent_row intent_id
    payload ← caught (c.author_payload intent sender 2)
    new_iterable_operation template id user
        (record {
          intent_id = intent_id;
          run_id = run_id;
          action = "create";
          organization_id = "";
          payload = payload;
          event_id = "";
          expected_readback_digest = "";
          provider_configuration = obj (field "region" region end);
        })
        s

  -- `approve_draft` and `approve_template`
  unfoldable pub approve :
      Kind → User → ℕ → ℕ → String → ℕ → Store → Result Error (Execution × Store)
  approve kind user administrator_session_id operation_id review_digest revision_id s = do
    session ← session_of user administrator_session_id now w
    operation ← demand (find key operation_id (rows kind s)) does_not_exist
    intent ← intent_row operation.intent_id
    _ ← lock_workflow intent.workflow_id
    validate_execution c now w kind s.templates operation true
    refuse
        (not (status_eq operation.status pending)
          || (not (str_eq review_digest operation.review_digest)
              || not (revision_id == intent.revision_id)))
        permission_denied
    let approved_row = record operation {
      approver_id = some user.id;
      approval_session_id = some session.id;
      approved_at = some now;
      status = approved;
    }
    xs ← save_execution approved_row (rows kind s)
    ok (approved_row, with_rows kind xs s)

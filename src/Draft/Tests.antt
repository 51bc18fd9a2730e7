-- ===== src/Draft/Tests.antt =====
-- A draft for Eventbrite on its way from the submission to the confirmed receipt.
mod Runs
mod Receipts
use civic_loop.Draft.Adapter.Eventbrite.{readback_digest}
use civic_loop.Prelude.Result.{Result, ok, err}
use civic_loop.Prelude.Table.{find, save}
use civic_loop.Prelude.{
  ℕ, ◌≡◌, ◌≤◌, refl, String, Bool, true, false, Option, none, some, List, [], ◌∷◌,
}
use civic_loop.Json.{Json, obj, end, null, str, dumps}
use civic_loop.Launch.Text.{decimal, strip}
use civic_loop.Json.{Fields, field, flag}
use civic_loop.Json.Render.{render}
use civic_loop.Draft.Payload.{Library}
use civic_loop.Draft.Payload.Contract.{contracts_of}
use civic_loop.Draft.Payload.Eventbrite.{validate_payload, event_valid, compute_request_digest}
use Prim.Native.String.{count}
use civic_loop.Prelude.{str_eq}
use civic_loop.Capability.{WorkflowCapability}
use civic_loop.Tool.{proposal, bounded_json, walk, encodable}
use civic_loop.Draft.{
  Kind, draft, User, Actor, operator, Session, Workflow, Proposal, Intent, Binding, Run, Receipt,
  Execution, Secret, Connection, World, Store, Contracts, Status, pending, approved, executing,
  succeeded, failed, unknown,
}
use civic_loop.Draft.Acceptance.{actor_of, session_of, digest, validate_intent}
use civic_loop.Draft.Review.{review}
use civic_loop.Draft.Validation.{validate_execution, validate_draft}
use civic_loop.Draft.Rows.{
  save_execution, update_ended, valid, action_valid, review_changed, history_reset, same_review,
  same_approval, ended, key, rows,
}
use civic_loop.Draft.Service.{Submission, new_execution, submit_draft, approve}
use civic_loop.Draft.Dispatch.{
  Worker, Reply, receipt, failure, finish, store_reply, receipt_invalid, with_receipt,
}
use civic_loop.Draft.Claim.{is_iterable, claim, claimed, prepare}
use civic_loop.Draft.System.{
  State, initial, Step, Reach, start, then_step, submits, approves, claims, sends, finishes, calls,
}

abbrev library : Library
library = record {
  sha256 = λ s. "d";
  id_text = decimal;
  moment = λ s. some (count s);
  is_zone = λ s. str_eq s "America/New_York";
}

abbrev contracts : Contracts
contracts = contracts_of library

abbrev at_time : String → Json
at_time s = obj (field "utc" (str s) (field "timezone" (str "America/New_York") end))

abbrev event_with : Fields → Json
event_with rest = obj (
    field "event"
      (obj (
        field "name" (obj (field "html" (str "Spring fair") end)) (
          field "start" (at_time "2026-05-01T10:00:00Z")
            (field "end" (at_time "2026-05-01T10:00:00.0Z") (field "currency" (str "USD") rest)))))
      end)

abbrev capability : WorkflowCapability
capability = record {
  id = 3;
  token_digest = "t";
  revision_digest = "d";
  workflow_id = 1;
  revision_id = 4;
  actor_id = 7;
  tools = "request_eventbrite_draft" ∷ [];
  audience = "civicloop-hermes";
  issued_at = 0;
  expires_at = 300;
  revoked_at = none;
  correlation_id = some "c";
}

abbrev pub intent : Intent
intent = record {
  id = 9;
  workflow_id = 1;
  revision_id = 4;
  actor_id = 7;
  proposal = record { capability = capability; kind = "proposal"; content = obj end; digest = "d" };
  provider = "eventbrite";
  operation_kind = "create_eventbrite_draft";
  action_digest = "d";
  idempotency_key = "d";
  status = "pending";
  approval_id = none;
  receipt = none;
}

abbrev agent_run : Run
agent_run = record {
  id = 8;
  has_succeeded = true;
  hermes_lane = true;
  workflow_id = 1;
  event_revision_id = 4;
  package_hash = "h";
  hermes_binding = some (record { actor_id = 7; revision_digest = "d"; correlation_id = "c" });
  control = some (some 3);
}

abbrev submitter : User
submitter = record { id = 1; is_authenticated = true; is_active = true }

abbrev owner : User
owner = record { id = 2; is_authenticated = true; is_active = true }

abbrev session : Session
session = record {
  id = 5;
  owner_id = 2;
  profile_active = true;
  recovery_restricted = false;
  mfa_verified_at = some 10;
  expires_at = some 10_000;
  absolute_expires_at = some 10_000;
  revoked_at = none;
}

abbrev world : World
world = record {
  eventbrite_write_enabled = true;
  iterable_write_enabled = false;
  users = submitter ∷ owner ∷ [];
  actors = record { id = 7; role = operator; user_id = some 1 } ∷ [];
  sessions = session ∷ [];
  workflows = record { id = 1; revision_id = 4; snapshot = obj end; package_hash = "h" } ∷ [];
  runs = agent_run ∷ [];
  intents = intent ∷ [];
  connections =
      record {
        provider = "eventbrite";
        is_healthy = true;
        configuration = obj end;
        secret = some (record { id = 6; is_active = true; version = 1 });
      }
      ∷ [];
}

abbrev submission : Submission
submission = record {
  intent_id = 9;
  run_id = 8;
  action = "create";
  organization_id = "12";
  payload = event_with end;
  event_id = "";
  expected_readback_digest = "";
  provider_configuration = null;
}

abbrev submitted_row : Execution
submitted_row = record (new_execution 11 1 submission) {
  payload = event_with (field "listed" (flag false) (field "shareable" (flag false) end));
  provider_configuration = obj end;
  request_digest = "d";
  review_digest = "d";
}

abbrev approved_row : Execution
approved_row = record submitted_row {
  approver_id = some 2;
  approval_session_id = some 5;
  approved_at = some 200;
  status = approved;
}

abbrev executing_row : Execution
executing_row = claimed false 300 approved_row

abbrev with_row : Execution → Store
with_row x = record { drafts = x ∷ []; templates = [] }

abbrev worker : Worker
worker = record {
  kind = draft;
  operation = executing_row;
  is_iterable = false;
  is_reconciling = false;
  session_id = 5;
  user = owner;
}

abbrev confirmed : Receipt
confirmed = record {
  outcome = "CONFIRMED";
  provider_id = some "77";
  provider_status = some "draft";
  request_digest = "d";
  readback_digest = some "b";
  error_category = none;
}

abbrev succeeded_row : Execution
succeeded_row = record executing_row {
  receipt = some confirmed;
  provider_id = "77";
  status = succeeded;
  completed_at = some 400;
}

submitted :
    submit_draft contracts 100 world 11 submitter submission
      (record { drafts = []; templates = [] })
    ≡ ok (submitted_row, with_row submitted_row)
unfolding submit_draft actor_of review validate_intent digest bounded_json walk encodable dumps
    decimal find save save_execution valid action_valid validate_payload event_valid strip render
    compute_request_digest
submitted = refl

approval :
    approve contracts 200 world draft owner 5 11 "d" 4 (with_row submitted_row)
    ≡ ok (approved_row, with_row approved_row)
unfolding approve session_of validate_execution validate_draft actor_of review validate_intent
    digest bounded_json walk encodable dumps decimal strip render validate_payload event_valid
    compute_request_digest find save save_execution valid action_valid review_changed history_reset
    same_review same_approval
approval = refl

claim_given :
    claim contracts 300 world false draft owner 5 11 (with_row approved_row)
    ≡ ok (worker, with_row executing_row)
unfolding claim session_of validate_execution validate_draft actor_of review validate_intent digest
    bounded_json walk encodable dumps decimal strip render validate_payload event_valid
    compute_request_digest find save save_execution valid action_valid review_changed history_reset
    same_review same_approval
claim_given = refl

ready_to_send : prepare contracts 310 world true worker (with_row executing_row) ≡ ok tt
unfolding prepare session_of validate_execution validate_draft actor_of review validate_intent
    digest bounded_json walk encodable dumps decimal strip render validate_payload event_valid
    compute_request_digest find
ready_to_send = refl

receipt_stored :
    finish 400 worker (receipt confirmed) (with_row executing_row) ≡ ok (with_row succeeded_row)
unfolding finish store_reply receipt_invalid with_receipt find save save_execution valid
    action_valid review_changed history_reset same_review same_approval dumps
receipt_stored = refl

-- ===== src/Launch/Workflow/Calls.antt =====
-- `run_workflow`, `answer_questions`, `submit_workflow`, `decide_approval` and `reset_demo` of
-- backend/launchloop/services.py.
pub mod Decision
pub mod Answers
pub mod Trails
pub mod Delivery
use civic_loop.Prelude.Result.{Result, ok, err, ◌>>=◌, ◌>>◌, refuse, demand}
use civic_loop.Prelude.{
  ℕ, ◌+◌, String, Bool, true, false, not, ◌||◌, Option, none, some, List, [], ◌∷◌, ◌++◌, map, ◌==◌,
  str_eq, is_some, any, keep, if◌then◌else◌,
}
use Prim.Native.String.{◌++◌ as append}
use civic_loop.Launch.{
  Value, null, flag, number, text, Snapshot, get, get_or, Package, PackageStatus, ready_for_review,
  needs_input, blocked,
}
use civic_loop.Launch.Text.{show, strip}
use civic_loop.Launch.Engine.{prepare_package, is_empty}
use civic_loop.Launch.Owner.{Calendar, prepare_owner_package}
use civic_loop.Launch.Workflow.{
  Actor, operator, approver, is_operator, is_approver, EventRevision, Status, draft, in_review,
  ready, approved, completed, Workflow, Details, ran, saved, hashed, reasoned, receipted, reset,
  WorkflowTransition, AuditEvent, ApprovalStatus, pending, granted, rejected, ApprovalRequest,
  ConnectorExecution, Board, DemoError, operator_required, invalid_workflow_state, synthetic_only,
  answers_incomplete, approval_not_found, self_approval_forbidden, approver_required,
  approval_already_decided, package_hash_mismatch, invalid_decision, does_not_exist,
  integrity_error, from_python, source_kind, is_synthetic, transition, locate,
}

abbrev pub is_draft : Status → Bool
is_draft draft = true
is_draft _ = false

abbrev pub is_needs_input : Status → Bool
is_needs_input Status.needs_input = true
is_needs_input _ = false

abbrev pub is_ready : Status → Bool
is_ready ready = true
is_ready _ = false

-- The package of the revision, by its kind.
unfoldable pub package_of : Calendar → EventRevision → Result DemoError Package
package_of calendar r = from_python (
    if is_synthetic (source_kind r)
    then prepare_package r.snapshot
    else prepare_owner_package calendar r.snapshot)

abbrev pub destination : PackageStatus → Status
destination ready_for_review = ready
destination needs_input = Status.needs_input
destination blocked = Status.needs_input

-- The workflow row with a package and its hash, or with neither.
abbrev pub with_package : Option Package → String → Board → Board
with_package p h b = record b {
  workflow = record b.workflow { campaign_package = p; package_hash = h };
}

unfoldable pub run_workflow :
    (Package → String) → Calendar → ℕ → Actor → Board → Result DemoError Board
run_workflow package_hash calendar workflow_id actor b = do
  locate workflow_id b
  refuse (not (is_operator actor.role)) operator_required
  refuse (not (is_draft b.workflow.status)) invalid_workflow_state
  p ← package_of calendar b.workflow.revision
  ok (
      transition actor (destination p.status) "launchloop_ran"
        (ran b.workflow.revision.version p.missing_fields)
        (with_package (some p) (package_hash p) b))

abbrev pub required_answers : List String
required_answers = "venue_name" ∷ "venue_address" ∷ "access_instructions" ∷ []

-- `str(answers.get(field, "")).strip()`
abbrev pub answer : String → Snapshot → String
answer key answers = strip (show (get_or (text "") (get key answers)))

unfoldable pub answered_fields : Snapshot → List (String × String)
answered_fields answers =
    map (λ key. (key, answer key answers))
      (keep (λ key. not (str_eq (answer key answers) "")) required_answers)

-- `snapshot[key] = value`
abbrev pub put : String → Value → Snapshot → Snapshot
put key v [] = (key, v) ∷ []
put key v ((k, w) ∷ rest) = if str_eq k key then (k, v) ∷ rest else (k, w) ∷ put key v rest

unfoldable pub update : List (String × String) → Snapshot → Snapshot
update [] snapshot = snapshot
update ((key, v) ∷ rest) snapshot = update rest (put key (text v) snapshot)

unfoldable pub missing_answers : Snapshot → List String
missing_answers snapshot = keep (λ key. str_eq (answer key snapshot) "") required_answers

-- `EventRevision.objects.create` under the constraint launchloop_unique_event_revision
unfoldable pub create_revision : EventRevision → Board → Result DemoError Board
create_revision r b =
    if any (λ (q : EventRevision). q.version == r.version) b.revisions
    then err integrity_error
    else ok (record b { revisions = b.revisions ++ r ∷ [] })

abbrev pub next_revision : Actor → Snapshot → Board → EventRevision
next_revision actor answers b = record {
  version = b.workflow.revision.version + 1;
  snapshot = update (answered_fields answers) b.workflow.revision.snapshot;
  author = actor.slug;
  source_snapshot = none;
}

-- The workflow row is moved to a revision, without a package, and its approval request is deleted,
-- with the connector execution that hangs on it.
abbrev pub at_revision : EventRevision → Board → Board
at_revision r b = record b {
  workflow = record b.workflow { revision = r; campaign_package = none; package_hash = "" };
  approval = none;
  execution = none;
}

unfoldable pub answer_questions : ℕ → Actor → Snapshot → Board → Result DemoError Board
answer_questions workflow_id actor answers b = do
  locate workflow_id b
  refuse (not (is_synthetic (source_kind b.workflow.revision))) synthetic_only
  refuse (not (is_operator actor.role)) operator_required
  refuse (not (is_needs_input b.workflow.status)) invalid_workflow_state
  refuse (is_empty (answered_fields answers)) answers_incomplete
  let r = next_revision actor answers b
  let missing = missing_answers r.snapshot
  stored ← create_revision r b
  ok (
      transition actor (if is_empty missing then draft else Status.needs_input)
        (if is_empty missing then "event_facts_resolved" else "event_facts_saved")
        (saved r.version (map (λ f. f.0) (answered_fields answers)) missing) (at_revision r stored))

-- `ApprovalRequest.objects.create`, one to one with the workflow
unfoldable pub create_approval : ApprovalRequest → Board → Result DemoError Board
create_approval a b =
    if is_some b.approval then err integrity_error else ok (record b { approval = some a })

abbrev pub new_approval : ℕ → Actor → String → ApprovalRequest
new_approval approval_id actor h = record {
  id = approval_id;
  submitter = actor.slug;
  approver = none;
  package_hash = h;
  status = pending;
  reason = "";
  decided_at = none;
}

unfoldable pub submit_workflow : ℕ → ℕ → Actor → Board → Result DemoError Board
submit_workflow approval_id workflow_id actor b = do
  locate workflow_id b
  refuse (not (is_operator actor.role)) operator_required
  refuse (not (is_synthetic (source_kind b.workflow.revision))) synthetic_only
  refuse (not (is_ready b.workflow.status) || str_eq b.workflow.package_hash "")
      invalid_workflow_state
  requested ← create_approval (new_approval approval_id actor b.workflow.package_hash) b
  ok (transition actor in_review "package_submitted" (hashed b.workflow.package_hash) requested)

-- `ConnectorExecution.objects.create`, one to one with the approval and with a unique key
unfoldable pub create_execution : ConnectorExecution → Board → Result DemoError Board
create_execution e b =
    if is_some b.execution || any (λ k. str_eq k e.idempotency_key) b.other_keys
    then err integrity_error
    else ok (record b { execution = some e })

abbrev pub audience_count : Option Package → ℕ
audience_count none = 0
audience_count (some p) = p.audience.member_count

abbrev pub is_pending : ApprovalStatus → Bool
is_pending pending = true
is_pending _ = false

abbrev pub decide : ApprovalRequest → Actor → String → ℕ → ApprovalStatus → ApprovalRequest
decide a actor reason now status = record a {
  approver = some actor.slug;
  reason = reason;
  decided_at = some now;
  status = status;
}

-- What `decide_approval` does once its checks have passed.
unfoldable pub reject : ApprovalRequest → Actor → String → ℕ → Board → Board
reject a actor reason now b =
    transition actor Status.needs_input "package_rejected" (reasoned reason)
      (with_package none "" (record b { approval = some (decide a actor reason now rejected) }))

unfoldable pub approve : ApprovalRequest → Actor → String → ℕ → Board → Result DemoError Board
approve a actor reason now b =
    let moved =
      transition actor approved "package_approved" (hashed a.package_hash)
        (record b { approval = some (decide a actor reason now granted) }) in
    let n = audience_count moved.workflow.campaign_package in
    do
      done ←
          create_execution
            (record { idempotency_key = append "launchloop:" a.package_hash; audience_count = n })
            moved
      ok (transition actor completed "sandbox_receipt_recorded" (receipted n) done)

-- The checks of `decide_approval`, in their order.
unfoldable pub may_decide :
    ApprovalRequest → Actor → String → String → Board → Result DemoError (Unit {0})
may_decide a actor decision submitted_hash b = do
  refuse (not (is_synthetic (source_kind b.workflow.revision))) synthetic_only
  refuse (str_eq actor.slug a.submitter) self_approval_forbidden
  refuse (not (is_approver actor.role)) approver_required
  refuse (not (is_pending a.status)) approval_already_decided
  refuse (not (str_eq submitted_hash a.package_hash)) package_hash_mismatch
  refuse (not (str_eq decision "approve" || str_eq decision "reject")) invalid_decision

-- `ApprovalRequest.objects.get(id=approval_id)`
abbrev pub approval_with : ℕ → Option ApprovalRequest → Option ApprovalRequest
approval_with approval_id none = none
approval_with approval_id (some a) = if a.id == approval_id then some a else none

unfoldable pub decide_approval :
    ℕ → Actor → String → String → String → ℕ → Board → Result DemoError Board
decide_approval approval_id actor decision submitted_hash reason now b = do
  a ← demand (approval_with approval_id b.approval) approval_not_found
  may_decide a actor decision submitted_hash b
  if str_eq decision "reject"
      then ok (reject a actor reason now b)
      else approve a actor reason now b

abbrev pub new_york_event : Snapshot
new_york_event =
    ("synthetic", flag true)
    ∷ ("title", text "New York International Youth Day Networking Breakfast")
    ∷ ("city", text "New York")
    ∷ ("region", text "NY")
    ∷ ("country", text "US")
    ∷ ("date", text "2026-08-12")
    ∷ ("start_time", text "09:00")
    ∷ ("end_time", text "12:00")
    ∷ ("timezone", text "America/New_York")
    ∷ ("venue_name", text "")
    ∷ ("venue_address", text "")
    ∷ ("access_instructions", text "")
    ∷ ("description", text "A breakfast networking program for young nonprofit professionals.")
    ∷ ("general_ticket_price", number 40)
    ∷ ("signup_url", text "https://example.test/eventbrite/ny-youth-day")
    ∷ ("sponsor_tier", text "gold")
    ∷ ("sponsor_discount_percent", number 25)
    ∷ []

abbrev pub first_revision : EventRevision
first_revision = record {
  version = 1;
  snapshot = new_york_event;
  author = "maya";
  source_snapshot = none;
}

-- The demo rows are deleted and created again; audit events and the rows of other workflows stay.
-- The users and the two actors are not part of a board.
unfoldable pub reset_demo : ℕ → Board → Board
reset_demo workflow_id b = record b {
  workflow = record {
    id = workflow_id;
    revision = first_revision;
    status = draft;
    campaign_package = none;
    package_hash = "";
  };
  revisions = first_revision ∷ [];
  approval = none;
  execution = none;
  transitions =
      record {
        actor = "maya";
        from_status = none;
        to_status = draft;
        action = "demo_reset";
        details = reset 1;
      }
      ∷ [];
  audits =
      b.audits
      ++ record {
        actor = "maya";
        action = "demo_reset";
        target_id = workflow_id;
        details = reset 1;
      }
        ∷ [];
}

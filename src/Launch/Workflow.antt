-- ===== src/Launch/Workflow.antt =====
-- backend/launchloop/services.py over the tables of backend/launchloop/models.py: the approval
-- workflow of one event. A board has the rows of one workflow: its revisions, its approval request
-- and connector execution (both one to one), its transitions and audit events, and the idempotency
-- keys that the executions of other workflows use. An operation runs under `transaction.atomic`
-- with
-- the row locked, so it is a function of the board. The hash of a package (SHA-256 of its JSON) and
-- the identifiers and times are parameters. Telemetry spans are left out.
use civic_loop.Prelude.Result.{Result, ok, err, ◌>>◌, refuse}
use civic_loop.Prelude.{
  ℕ, String, Bool, true, false, not, Option, some, List, [], ◌∷◌, ◌++◌, ◌==◌, is_some,
  if◌then◌else◌,
}
pub mod Calls
pub mod Consistency
use civic_loop.Launch.{
  Value, null, flag, number, text, Snapshot, get, get_or, PyError, Package, ready_for_review,
}
use civic_loop.Launch.Text.{show, strip}
use civic_loop.Launch.Engine.{prepare_package}
use civic_loop.Launch.Owner.{Calendar, prepare_owner_package}

pub data Role : Type 0 where
  operator approver : Role

pub record Actor : Type 0 where
  pub slug : String
  pub role : Role

abbrev pub is_operator : Role → Bool
is_operator operator = true
is_operator approver = false

abbrev pub is_approver : Role → Bool
is_approver approver = true
is_approver operator = false

pub record EventRevision : Type 0 where
  pub version : ℕ
  pub snapshot : Snapshot
  pub author : String
  pub source_snapshot : Option ℕ

pub data Status : Type 0 where
  draft needs_input ready in_review approved completed : Status

pub record Workflow : Type 0 where
  pub id : ℕ
  pub revision : EventRevision
  pub status : Status
  pub campaign_package : Option Package
  pub package_hash : String

pub data Details : Type 0 where
  ran : ℕ → List String → Details
  saved : ℕ → List String → List String → Details
  hashed : String → Details
  reasoned : String → Details
  receipted : ℕ → Details
  reset : ℕ → Details

pub record WorkflowTransition : Type 0 where
  pub actor : String
  pub from_status : Option Status
  pub to_status : Status
  pub action : String
  pub details : Details

pub record AuditEvent : Type 0 where
  pub actor : String
  pub action : String
  pub target_id : ℕ
  pub details : Details

pub data ApprovalStatus : Type 0 where
  pending granted rejected : ApprovalStatus

pub record ApprovalRequest : Type 0 where
  pub id : ℕ
  pub submitter : String
  pub approver : Option String
  pub package_hash : String
  pub status : ApprovalStatus
  pub reason : String
  pub decided_at : Option ℕ

-- The rest of the receipt is constant: connector sandbox_iterable, mode simulation, no external
-- action.
pub record ConnectorExecution : Type 0 where
  pub idempotency_key : String
  pub audience_count : ℕ

pub record Board : Type 0 where
  pub workflow : Workflow
  pub revisions : List EventRevision
  pub approval : Option ApprovalRequest
  pub execution : Option ConnectorExecution
  pub transitions : List WorkflowTransition
  pub audits : List AuditEvent
  pub other_keys : List String

-- `DemoError` by its code, and the exceptions that other calls raise.
pub data DemoError : Type 0 where
  operator_required invalid_workflow_state synthetic_only answers_incomplete : DemoError
  approval_not_found self_approval_forbidden approver_required : DemoError
  approval_already_decided package_hash_mismatch invalid_decision : DemoError
  does_not_exist integrity_error : DemoError
  raised : PyError → DemoError

abbrev from_python {ℓ} : {A : Type ℓ} → Result PyError A → Result DemoError A
from_python (ok a) = ok a
from_python (err e) = err (raised e)

-- `source_kind(revision) == "synthetic"`
abbrev is_true : Option Value → Bool
is_true (some (flag true)) = true
is_true _ = false

pub data SourceKind : Type 0 where
  synthetic eventbrite manual unsupported : SourceKind

unfoldable pub source_kind : EventRevision → SourceKind
source_kind r =
    if is_true (get "synthetic" r.snapshot)
    then synthetic
    else if is_some r.source_snapshot
    then eventbrite
    else if is_true (get "owner_event" r.snapshot)
    then manual
    else unsupported

abbrev pub is_synthetic : SourceKind → Bool
is_synthetic synthetic = true
is_synthetic _ = false

-- `_transition`: the status is written, and the step is recorded in both trails.
unfoldable pub transition : Actor → Status → String → Details → Board → Board
transition actor to_status action details b = record b {
  workflow = record b.workflow { status = to_status };
  transitions =
      b.transitions
      ++ record {
        actor = actor.slug;
        from_status = some b.workflow.status;
        to_status = to_status;
        action = action;
        details = details;
      }
        ∷ [];
  audits =
      b.audits
      ++ record {
        actor = actor.slug;
        action = action;
        target_id = b.workflow.id;
        details = details;
      }
        ∷ [];
}

-- `Workflow.objects.get(id=workflow_id)`
abbrev pub locate : ℕ → Board → Result DemoError (Unit {0})
locate workflow_id b = refuse (not (b.workflow.id == workflow_id)) does_not_exist

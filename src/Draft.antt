-- ===== src/Draft.antt =====
-- backend/integrations/draft_operations.py: drafts and templates that a person reviewed, an owner
-- approved, and that are sent to a provider at most once. This file has the rows that it reads and
-- writes (backend/integrations/models.py, backend/agents/models.py, backend/identity/models.py).
-- An id is a number, times are in microseconds, and a row has the fields that the module reads.
-- A receipt is kept as the record that it is the dictionary of.
pub mod Acceptance
pub mod Review
pub mod Validation
pub mod Rows
pub mod Service
pub mod Dispatch
pub mod Claim
pub mod System
pub mod Outcome
pub mod Authority
mod Tests
pub mod Payload
pub mod Adapter
use civic_loop.Prelude.Result.{Result}
use civic_loop.Prelude.{ℕ, String, Bool, Option, List, true, false}
use civic_loop.Json.{Json}
use civic_loop.Capability.{WorkflowCapability}

-- What the module raises: its own `PermissionDenied`, and what it lets through or catches.
pub data Error : Type 0 where
  permission_denied does_not_exist invalid_arguments validation_error value_error : Error
  key_error type_error attribute_error integrity_error : Error
  provider_error : String → Error

pub data Status : Type 0 where
  pending approved executing succeeded failed unknown : Status

abbrev pub status_eq : Status → Status → Bool
status_eq pending pending = true
status_eq approved approved = true
status_eq executing executing = true
status_eq succeeded succeeded = true
status_eq failed failed = true
status_eq unknown unknown = true
status_eq _ _ = false

pub data Role : Type 0 where
  operator approver : Role

pub record User : Type 0 where
  pub id : ℕ
  pub is_authenticated : Bool
  pub is_active : Bool

pub record Actor : Type 0 where
  pub id : ℕ
  pub role : Role
  pub user_id : Option ℕ

-- A session with the owner and the status of its profile.
pub record Session : Type 0 where
  pub id : ℕ
  pub owner_id : ℕ
  pub profile_active : Bool
  pub recovery_restricted : Bool
  pub mfa_verified_at : Option ℕ
  pub expires_at : Option ℕ
  pub absolute_expires_at : Option ℕ
  pub revoked_at : Option ℕ

-- A workflow with the snapshot of its revision.
pub record Workflow : Type 0 where
  pub id : ℕ
  pub revision_id : ℕ
  pub snapshot : Json
  pub package_hash : String

-- A submission of the tool broker with its capability.
pub record Proposal : Type 0 where
  pub capability : WorkflowCapability
  pub kind : String
  pub content : Json
  pub digest : String

-- `DraftOperation`
pub record Intent : Type 0 where
  pub id : ℕ
  pub workflow_id : ℕ
  pub revision_id : ℕ
  pub actor_id : ℕ
  pub proposal : Proposal
  pub provider : String
  pub operation_kind : String
  pub action_digest : String
  pub idempotency_key : String
  pub status : String
  pub approval_id : Option ℕ
  pub receipt : Option Json

-- `HermesRunBinding`
pub record Binding : Type 0 where
  pub actor_id : ℕ
  pub revision_digest : String
  pub correlation_id : String

-- An agent's run, with its binding, and its control as the capability that it may have.
pub record Run : Type 0 where
  pub id : ℕ
  pub has_succeeded : Bool
  pub hermes_lane : Bool
  pub workflow_id : ℕ
  pub event_revision_id : ℕ
  pub package_hash : String
  pub hermes_binding : Option Binding
  pub control : Option (Option ℕ)

-- `EventbriteDraftReceipt` and `IterableDraftReceipt`
pub record Receipt : Type 0 where
  pub outcome : String
  pub provider_id : Option String
  pub provider_status : Option String
  pub request_digest : String
  pub readback_digest : Option String
  pub error_category : Option String

-- `DraftExecution` and `TemplateExecution`, which have the same fields.
pub data Kind : Type 0 where
  draft template : Kind

pub record Execution : Type 0 where
  pub id : ℕ
  pub intent_id : ℕ
  pub run_id : ℕ
  pub submitter_id : ℕ
  pub approver_id : Option ℕ
  pub action : String
  pub organization_id : String
  pub event_id : String
  pub expected_readback_digest : String
  pub provider_configuration : Json
  pub payload : Json
  pub request_digest : String
  pub review_digest : String
  pub status : Status
  pub receipt : Option Receipt
  pub provider_id : String
  pub error_category : String
  pub approved_at : Option ℕ
  pub approval_session_id : Option ℕ
  pub claimed_at : Option ℕ
  pub completed_at : Option ℕ

pub record Secret : Type 0 where
  pub id : ℕ
  pub is_active : Bool
  pub version : ℕ

-- `IntegrationConnection`
pub record Connection : Type 0 where
  pub provider : String
  pub is_healthy : Bool
  pub configuration : Json
  pub secret : Option Secret

-- The rows that others keep, with the settings of the process.
pub record World : Type 0 where
  pub eventbrite_write_enabled : Bool
  pub iterable_write_enabled : Bool
  pub users : List User
  pub actors : List Actor
  pub sessions : List Session
  pub workflows : List Workflow
  pub runs : List Run
  pub intents : List Intent
  pub connections : List Connection

-- The tables of this module.
pub record Store : Type 0 where
  pub drafts : List Execution
  pub templates : List Execution

-- What the module uses of its neighbours: SHA-256, the text of an id, and the payloads of the two
-- providers (`validate_payload`, `compute_request_digest`, `payload_version`, `author_payload` of
-- eventbrite_drafts.py, iterable_templates.py and iterable_drafts.py).
pub record Contracts : Type 0 where
  pub sha256 : String → String
  pub id_text : ℕ → String
  pub validate_payload : Json → Bool → Result Error Json
  pub request_digest : String → String → Option String → Json → Result Error String
  pub payload_version : Json → Result Error ℕ
  pub author_payload : Intent → Json → ℕ → Result Error Json
  pub template_request_digest : Json → Json → Result Error String
  pub campaign_request_digest : Json → Json → Json → Result Error String

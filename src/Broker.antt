-- ===== src/Broker.antt =====
-- backend/agents/mcp.py: the broker that runs the tool calls of an agent under a capability. Service
-- authentication and token signatures are arguments; ids of new rows are given; SHA-256 and the
-- texts of ids are parameters. Telemetry is left out.
pub mod Tools
pub mod Dispatch
pub mod Answered
pub mod Scope
pub mod History
pub mod Replay
pub mod Accepted
pub mod Opened
mod Tests
use civic_loop.Prelude.Int.{pos}
use civic_loop.Prelude.Result.{Result, ok, err, ◌>>=◌}
use civic_loop.Prelude.{
  ℕ, String, Bool, true, false, Option, none, some, List, str_eq, if◌then◌else◌,
}
use civic_loop.Json.{Json, Fields, num, str, end, field, get}
use civic_loop.Tool.{Invalid, bounded_json}
use civic_loop.Capability.{WorkflowCapability, Operator}
use civic_loop.Draft.{Proposal, Intent}

-- `_BrokerDenial` with its stage, `InvalidToolArguments`, and a row that is missing
pub data Refusal : Type 0 where
  denied : String → Refusal
  invalid_arguments : Refusal
  does_not_exist : Refusal

-- A workflow with its revision; whether that is synthetic is its `source_kind`.
pub record ToolWorkflow : Type 0 where
  pub id : ℕ
  pub event_id : ℕ
  pub revision_id : ℕ
  pub revision_event_id : ℕ
  pub snapshot : Json
  pub is_synthetic : Bool

-- `MCPSubmission` with its key
pub record Submission : Type 0 where
  pub id : ℕ
  pub proposal : Proposal

-- `MCPInvocation`
pub record Invocation : Type 0 where
  pub capability_id : ℕ
  pub request_id : String
  pub idempotency_digest : String
  pub argument_digest : String
  pub tool_name : String
  pub result : Json

-- `AuditEvent` of the broker: a call's, or a refusal's with its stage
pub data Audit : Type 0 where
  called : String → ℕ → ℕ → ℕ → String → String → String → Audit
  tool_denied : String → String → Audit
  tool_invalid : Audit

pub record Store : Type 0 where
  pub actors : List Operator
  pub workflows : List ToolWorkflow
  pub capabilities : List WorkflowCapability
  pub submissions : List Submission
  pub operations : List Intent
  pub invocations : List Invocation
  pub audits : List Audit

-- SHA-256, the digest of a token, and the text of an id
pub record Hashes : Type 0 where
  pub sha256 : String → String
  pub token_digest : String → String
  pub id_text : ℕ → String

-- An error of tool_schemas.py is one of this module's that it does not catch.
abbrev pub checked : Result Invalid String → Result Refusal String
checked (ok encoded) = ok encoded
checked (err e) = err invalid_arguments

abbrev pub bounded : Json → Result Refusal String
bounded v = checked (bounded_json v)

-- `digest`
unfoldable pub digest : Hashes → Json → Result Refusal String
digest h v = bounded v >>= λ s. ok (h.sha256 s)

abbrev text_or_empty : Option Json → String
text_or_empty (some (str s)) = s
text_or_empty _ = ""

-- `arguments[key]`, of arguments whose text was validated
abbrev pub argument : String → Fields → String
argument key fs = text_or_empty (get key fs)

abbrev pub id_json : Hashes → ℕ → Json
id_json h n = str (h.id_text n)

abbrev pub number : ℕ → Json
number n = num (pos n)

-- ===== src/Broker/Tests.antt =====
-- Calls of tools under a capability, concretely.
mod Opened
use civic_loop.Prelude.Int.{pos}
use civic_loop.Prelude.Result.{Result, ok, err}
use civic_loop.Prelude.{◌≡◌, refl, String, true, some, none, [], ◌∷◌}
use civic_loop.Json.{Json, Fields, num, str, obj, end, field, dumps}
use civic_loop.Launch.Text.{decimal}
use civic_loop.Launch.Workflow.{operator}
use civic_loop.Tool.{
  bounded_json, walk, encodable, validate, validate_tool_arguments, extras, matches, canonical,
}
use civic_loop.Capability.{WorkflowCapability}
use civic_loop.Broker.{Refusal, denied, ToolWorkflow, Store, Hashes, digest, tool_denied}
use civic_loop.Broker.Tools.{execute}
use civic_loop.Broker.Dispatch.{audited, invoke, dispatch_bound, dispatch_mcp_tool}
use civic_loop.Broker.Replay.{Unchanged, dispatch_mcp_tool_again}
use civic_loop.Broker.Scope.{Covers, dispatch_mcp_tool-Covers}
use civic_loop.Broker.History.{now_on, call, AreDistinct, Later-AreDistinct}
use civic_loop.Prelude.{Bool}

abbrev uuid : String
uuid = "1b4e28ba-2fa1-41d2-883f-0016d3cca427"

abbrev hashes : Hashes
hashes = record { sha256 = λ s. "d"; token_digest = λ s. s; id_text = λ n. uuid }

abbrev fields : Fields
fields = field "workflow_id" (str uuid) (
    field "revision_id" (num (pos 4)) (
      field "actor_id" (str uuid) (
        field "correlation_id" (str uuid) (
          field "request_id" (str uuid)
            (field "idempotency_key" (str "key-000000000000001") end)))))

abbrev capability : WorkflowCapability
capability = record {
  id = 3;
  token_digest = "token";
  revision_digest = "d";
  workflow_id = 1;
  revision_id = 4;
  actor_id = 7;
  tools = "get_policy_context" ∷ [];
  audience = "civicloop-hermes";
  issued_at = 0;
  expires_at = 300;
  revoked_at = none;
  correlation_id = some uuid;
}

abbrev workflow : ToolWorkflow
workflow = record {
  id = 1;
  event_id = 2;
  revision_id = 4;
  revision_event_id = 2;
  snapshot = obj end;
  is_synthetic = true;
}

abbrev store : Store
store = record {
  actors = record { id = 7; role = operator; user = some true } ∷ [];
  workflows = workflow ∷ [];
  capabilities = capability ∷ [];
  submissions = [];
  operations = [];
  invocations = [];
  audits = [];
}

abbrev answer_of : Result Refusal Json → Json
answer_of (ok v) = v
answer_of (err e) = obj end

abbrev outcome : Result Refusal Json × Store
unfolding dispatch_mcp_tool dispatch_bound invoke execute digest validate_tool_arguments
    bounded_json walk encodable dumps decimal validate extras matches canonical
outcome =
    dispatch_mcp_tool hashes true true 10 (str "get_policy_context") 20 (obj fields) "token" store

abbrev answer : Json
unfolding outcome
answer = answer_of outcome.0

answered :
    dispatch_mcp_tool hashes true true 10 (str "get_policy_context") 20 (obj fields) "token" store
    ≡ (ok answer, outcome.1)
unfolding answer outcome dispatch_mcp_tool dispatch_bound invoke execute digest
    validate_tool_arguments bounded_json walk encodable dumps decimal validate extras matches
    canonical
answered = refl

dispatch_mcp_tool-Covers_example :
    (◌≡◌ {A = Bool} true true)
    × (◌≡◌ {A = Bool} true true)
    × (tool : String) × (fs : Fields) × (◌≡◌ {A = Json} (str "get_policy_context") (str tool))
    × (◌≡◌ {A = Json} (obj fields) (obj fs))
    × Covers hashes 10 tool fs "token" store
dispatch_mcp_tool-Covers_example =
    dispatch_mcp_tool-Covers hashes true true 10 (str "get_policy_context") 20 (obj fields) "token"
      store answer outcome.1 answered

abbrev again : Result Refusal Json × Store
unfolding outcome dispatch_mcp_tool dispatch_bound invoke execute digest validate_tool_arguments
    bounded_json walk encodable dumps decimal validate extras matches canonical
again =
    dispatch_mcp_tool hashes true true 15 (str "get_policy_context") 21 (obj fields) "token"
      outcome.1

answered_again :
    dispatch_mcp_tool hashes true true 15
      (str "get_policy_context")
      21
      (obj fields)
      "token"
      outcome.1
    ≡ (ok (answer_of again.0), again.1)
unfolding again outcome dispatch_mcp_tool dispatch_bound invoke execute digest
    validate_tool_arguments bounded_json walk encodable dumps decimal validate extras matches
    canonical
answered_again = refl

dispatch_mcp_tool_again_example : (answer_of again.0 ≡ answer) × Unchanged hashes outcome.1 again.1
unfolding outcome dispatch_mcp_tool dispatch_bound invoke execute digest validate_tool_arguments
    bounded_json walk encodable dumps decimal validate extras matches canonical
dispatch_mcp_tool_again_example =
    dispatch_mcp_tool_again hashes true true true true 10 15 (str "get_policy_context") 20 21
      (obj fields) "token" store outcome.1 outcome.1 again.1 answer (answer_of again.0) capability
      capability answered now_on answered_again refl refl refl

Later-AreDistinct_example : AreDistinct hashes outcome.1.invocations
unfolding outcome
Later-AreDistinct_example =
    Later-AreDistinct hashes {s = store} {u = outcome.1} tt
      (call {t = store} now_on true true 10 (str "get_policy_context") 20 (obj fields) "token")

-- A tool that the capability does not name is refused, and the refusal is recorded.
refused :
    dispatch_mcp_tool hashes true true 10 (str "get_event_revision") 20 (obj fields) "token" store
    ≡ (
      err (denied "capability_scope"),
      record store { audits = tool_denied "capability_scope" "get_event_revision" ∷ [] },
    )
unfolding dispatch_mcp_tool dispatch_bound validate_tool_arguments bounded_json walk encodable dumps
    decimal validate extras matches canonical
refused = refl

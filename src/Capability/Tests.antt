-- ===== src/Capability/Tests.antt =====
-- A capability of backend/agents/capabilities.py from its issue to its end.
use Prim.Native.String.{◌++◌ as append}
use civic_loop.Launch.{Snapshot}
use civic_loop.Capability.{
  Denial, Store, new_capability, issue_workflow_capability, revoke_workflow_capability,
  bound_tool_context,
}
use civic_loop.Capability.Bound.{Bound, bound_tool_context-Bound, issue_workflow_capability-bound}
use civic_loop.Prelude.Result.{Result, ok}
use civic_loop.Prelude.{String, ◌≡◌, refl, Bool, true, none, some, List, [], ◌∷◌, ◌++◌, arith}
use civic_loop.Launch.Workflow.{operator}

abbrev digest : Snapshot → Result Denial String
digest s = ok "snapshot"

abbrev token_digest : String → String
token_digest token = append "sha256:" token

abbrev signed : String → Bool
signed token = true

abbrev store : Store
store = record {
  workflows =
      record { id = 1; event_id = 2; revision = record { id = 3; event_id = 2; snapshot = [] } }
      ∷ [];
  actors = record { id = 4; role = operator; user = some true } ∷ [];
  capabilities = [];
  audits = [];
}

abbrev tools : List String
tools = "get_event_revision" ∷ "get_operation_status" ∷ []

abbrev issued : Store
issued = record store {
  capabilities = new_capability digest token_digest 9 "cap_a" 1_000 1 3 4 tools 60 "snapshot" ∷ [];
  audits =
      record { actor_id = 4; action = "mcp.capability_issued"; workflow_id = 1; capability_id = 9 }
      ∷ [];
}

issue_eq :
    issue_workflow_capability digest token_digest 9 "cap_a" 1_000 1 3 4 tools 60 store
    ≡ ok ("cap_a", issued)
unfolding issue_workflow_capability
issue_eq = refl

issue_workflow_capability-bound_example :
    bound_tool_context digest token_digest signed "cap_a" 2_000 issued ≡ ok (none, tools)
issue_workflow_capability-bound_example =
    issue_workflow_capability-bound digest token_digest signed 9 "cap_a" "cap_a" 1_000 2_000 1 3 4
      60 tools store issued issue_eq refl (omega arith) (omega arith) (omega arith)

bound_eq : bound_tool_context digest token_digest signed "cap_a" 2_000 issued ≡ ok (none, tools)
unfolding bound_tool_context
bound_eq = refl

bound_tool_context-Bound_example : Bound digest token_digest signed "cap_a" 2_000 issued tools
bound_tool_context-Bound_example =
    bound_tool_context-Bound digest token_digest signed "cap_a" 2_000 issued none tools bound_eq

abbrev revoked : Store
revoked = record issued {
  capabilities =
      record (new_capability digest token_digest 9 "cap_a" 1_000 1 3 4 tools 60 "snapshot") {
        revoked_at = some 1_500;
      }
      ∷ [];
  audits =
      issued.audits
      ++ record {
        actor_id = 4;
        action = "mcp.capability_revoked";
        workflow_id = 1;
        capability_id = 9;
      }
        ∷ [];
}

revoke_eq : revoke_workflow_capability digest token_digest "cap_a" 1_500 issued ≡ ok revoked
unfolding revoke_workflow_capability
revoke_eq = refl

-- ===== src/Broker/Dispatch.antt =====
-- `dispatch_mcp_tool`, `_dispatch` and `_invoke` of backend/agents/mcp.py. A refused call is rolled back,
-- and its refusal is recorded.
use civic_loop.Prelude.Result.{Result, ok, err, ◌>>=◌, ◌>>◌, refuse, demand}
use civic_loop.Prelude.{
  ℕ, ◌+◌, String, Bool, false, not, ◌&&◌, ◌||◌, Option, none, some, List, [], ◌∷◌, ◌++◌, any, leb,
  ltb, ◌==◌, str_eq, is_none, if◌then◌else◌,
}
use civic_loop.Prelude.Int.{pos}
use civic_loop.Json.{Json, Fields, num, str, arr, obj, nil, item, end, field, get}
use civic_loop.Tool.{validate_tool_arguments}
use civic_loop.Capability.{
  WorkflowCapability, Operator, audience_name, tool_names, first, has_digest, is_active,
}
use civic_loop.Launch.Workflow.{is_operator}
use civic_loop.Broker.{
  Refusal, denied, invalid_arguments, does_not_exist, ToolWorkflow, Invocation, called, tool_denied,
  tool_invalid, Store, Hashes, checked, bounded, digest, argument, id_json,
}
use civic_loop.Broker.Tools.{execute}
use Prim.Native.String.{count}

abbrev pub is_number : Option Json → ℕ → Bool
is_number (some (num (pos n))) m = n == m
is_number _ m = false

abbrev pub differs : Option String → String → Bool
differs none s = false
differs (some t) s = not (str_eq t s)

abbrev pub bind_correlation : Option String → String → Option String
bind_correlation none s = some s
bind_correlation (some t) s = some t

abbrev pub save_capability : WorkflowCapability → List WorkflowCapability → List WorkflowCapability
save_capability c [] = []
save_capability c (x ∷ xs) = if x.id == c.id then c ∷ xs else x ∷ save_capability c xs

-- `result["correlation_id"] = ...`
abbrev append_field : String → Json → Fields → Fields
append_field k v end = field k v end
append_field k v (field j u fs) = field j u (append_field k v fs)

abbrev pub with_correlation : String → Json → Json
with_correlation correlation (obj fs) = obj (append_field "correlation_id" (str correlation) fs)
with_correlation correlation v = v

module _ (h : Hashes) where
  -- `_audit`
  abbrev pub audited : String → WorkflowCapability → String → Fields → Store → Store
  audited action capability tool fs s = record s {
    audits =
        s.audits
        ++ called action capability.actor_id capability.workflow_id capability.id tool
            (argument "correlation_id" fs) (argument "request_id" fs)
          ∷ [];
  }

  abbrev pub is_repeat : String → String → Invocation → Bool
  is_repeat request_id idem x = str_eq x.request_id request_id || str_eq x.idempotency_digest idem

  -- An invocation that is found is the call's own, or the call conflicts with it.
  abbrev pub conflicts : WorkflowCapability → String → String → String → Invocation → Bool
  conflicts capability tool argument_digest idem existing =
      not (existing.capability_id == capability.id)
      || (not (str_eq existing.tool_name tool)
          || (not (str_eq existing.argument_digest argument_digest)
              || not (str_eq existing.idempotency_digest idem)))

  abbrev pub invoke_new :
      String
      → ℕ
      → Fields
      → WorkflowCapability
      → ToolWorkflow
      → String
      → String
      → Store
      → Result Refusal (Json × Store)
  invoke_new tool id fs capability workflow argument_digest idem s = do
    (answer, (submissions, operations)) ←
        execute h tool id fs capability workflow s.submissions s.operations
    let result = with_correlation (argument "correlation_id" fs) answer
    _ ← bounded result
    let row : Invocation = record {
      capability_id = capability.id;
      request_id = argument "request_id" fs;
      idempotency_digest = idem;
      argument_digest = argument_digest;
      tool_name = tool;
      result = result;
    }
    ok (
      result,
      audited "mcp.tool_succeeded" capability tool fs (record s {
        submissions = submissions;
        operations = operations;
        invocations = s.invocations ++ row ∷ [];
      }),
    )

  abbrev pub invoke_found :
      Option Invocation
      → String
      → ℕ
      → Fields
      → WorkflowCapability
      → ToolWorkflow
      → String
      → String
      → Store
      → Result Refusal (Json × Store)
  invoke_found none tool id fs capability workflow argument_digest idem s =
      invoke_new tool id fs capability workflow argument_digest idem s
  invoke_found (some existing) tool id fs capability workflow argument_digest idem s = do
    refuse (conflicts capability tool argument_digest idem existing)
        (denied "invocation_replay_conflict")
    ok (existing.result, audited "mcp.tool_replayed" capability tool fs s)

  abbrev pub idempotency_of : WorkflowCapability → Fields → Json
  idempotency_of capability fs =
      arr (item (id_json h capability.id) (item (str (argument "idempotency_key" fs)) nil))

  -- `_invoke`
  unfoldable pub invoke :
      String
      → ℕ
      → Fields
      → WorkflowCapability
      → ToolWorkflow
      → String
      → Store
      → Result Refusal (Json × Store)
  invoke tool id fs capability workflow encoded s = do
    idem ← digest h (idempotency_of capability fs)
    invoke_found (first (is_repeat (argument "request_id" fs) idem) s.invocations) tool id fs
        capability workflow (h.sha256 encoded) idem s

  abbrev pub out_of_scope : ℕ → String → Fields → WorkflowCapability → Operator → Bool
  out_of_scope now tool fs capability actor =
      not (str_eq capability.audience audience_name)
      || (not (is_none capability.revoked_at)
          || (not (leb capability.issued_at now && ltb now capability.expires_at)
              || (not (leb capability.expires_at (capability.issued_at + 300_000_000))
                  || (not (any (str_eq tool) capability.tools)
                      || (not
                            (str_eq (h.id_text capability.workflow_id) (argument "workflow_id" fs))
                          || (not (is_number (get "revision_id" fs) capability.revision_id)
                              || (not (
                                    str_eq (h.id_text capability.actor_id) (argument "actor_id" fs))
                                  || (not (is_operator actor.role)
                                      || not (is_active actor.user)))))))))

  -- `_dispatch`
  unfoldable pub dispatch_bound :
      ℕ → String → ℕ → Fields → String → String → Store → Result Refusal (Json × Store)
  dispatch_bound now tool id fs token encoded s = do
    capability ←
        demand (first (has_digest (h.token_digest token)) s.capabilities)
          (denied "capability_scope")
    actor ←
        demand (first (λ (a : Operator). a.id == capability.actor_id) s.actors)
          (denied "capability_scope")
    refuse (out_of_scope now tool fs capability actor) (denied "capability_scope")
    workflow ←
        demand (first (λ (w : ToolWorkflow). w.id == capability.workflow_id) s.workflows)
          does_not_exist
    refuse (not (workflow.revision_id == capability.revision_id)) (denied "revision_scope")
    revision ← digest h workflow.snapshot
    refuse
        (not (str_eq revision capability.revision_digest)
          || (not (workflow.event_id == workflow.revision_event_id)
              || differs capability.correlation_id (argument "correlation_id" fs)))
        (denied "revision_scope")
    let bound = record capability {
      correlation_id = bind_correlation capability.correlation_id (argument "correlation_id" fs);
    }
    invoke tool id fs bound workflow encoded
        (record s { capabilities = save_capability bound s.capabilities })

  abbrev pub arguments_of : Json → Result Refusal Fields
  arguments_of (obj fs) = ok fs
  arguments_of _ = err invalid_arguments

  abbrev pub tool_text : Json → Result Refusal String
  tool_text (str tool) = ok tool
  tool_text _ = err invalid_arguments

  -- The body of `dispatch_mcp_tool`: is the service authentic, and the token signed?
  abbrev pub attempt :
      Bool → Bool → ℕ → Json → ℕ → Json → String → Store → Result Refusal (Json × Store)
  attempt authentic signed now tool_name id arguments token s = do
    refuse (not authentic) (denied "service_identity")
    refuse (ltb 160 (count token) || not signed) (denied "authorization_failed")
    encoded ← checked (validate_tool_arguments tool_name arguments)
    tool ← tool_text tool_name
    fs ← arguments_of arguments
    dispatch_bound now tool id fs token encoded s

  abbrev known_tool : Json → String
  known_tool (str tool) = if any (str_eq tool) tool_names then tool else "unknown"
  known_tool _ = "unknown"

  abbrev pub recorded : Json → Store → Result Refusal (Json × Store) → Result Refusal Json × Store
  recorded tool_name s (ok (result, t)) = (ok result, t)
  recorded tool_name s (err (denied stage)) = (
    err (denied stage),
    record s { audits = s.audits ++ tool_denied stage (known_tool tool_name) ∷ [] },
  )
  recorded tool_name s (err invalid_arguments) =
      (err invalid_arguments, record s { audits = s.audits ++ tool_invalid ∷ [] })
  recorded tool_name s (err does_not_exist) = (err does_not_exist, s)

  unfoldable pub dispatch_mcp_tool :
      Bool → Bool → ℕ → Json → ℕ → Json → String → Store → Result Refusal Json × Store
  dispatch_mcp_tool authentic signed now tool_name id arguments token s =
      recorded tool_name s (attempt authentic signed now tool_name id arguments token s)

-- ===== src/Broker/Scope.antt =====
-- Who is answered by the broker (backend/agents/mcp.py).
use civic_loop.Prelude.Result.{Result, ok, err}
use civic_loop.Prelude.{
  ℕ, ◌+◌, ◌≤◌, ◌<◌, ◌≡◌, String, Bool, true, false, none, some, arith, ◌==◌, str_eq, of_str_eq, any,
}
use civic_loop.Json.{Json, Fields, str, obj, get}
use civic_loop.Capability.{WorkflowCapability, Operator, first, has_digest, is_active}
use civic_loop.Launch.Workflow.{is_operator}
use civic_loop.Broker.{
  Refusal, ToolWorkflow, Store, Hashes, digest, argument, denied, invalid_arguments, does_not_exist,
}
use civic_loop.Broker.Dispatch.{is_number, out_of_scope, recorded, dispatch_mcp_tool, attempt}
use civic_loop.Broker.Answered.{attempt-Answered}

module _ (h : Hashes) where
  -- The capability of a token covers a call of a tool at a time, for the workflow as it is.
  abbrev pub Covers : ℕ → String → Fields → String → Store → Type 0
  Covers now tool fs token s =
      (capability : WorkflowCapability) × (actor : Operator) × (workflow : ToolWorkflow) × (first
          (has_digest (h.token_digest token)) s.capabilities
        ≡ some capability)
      × (first (λ (a : Operator). a.id == capability.actor_id) s.actors ≡ some actor)
      × (first (λ (w : ToolWorkflow). w.id == capability.workflow_id) s.workflows ≡ some workflow)
      × (capability.revoked_at ≡ none)
      × (capability.issued_at ≤ now)
      × (now < capability.expires_at)
      × (capability.expires_at ≤ capability.issued_at + 300_000_000)
      × (any (str_eq tool) capability.tools ≡ true)
      × (h.id_text capability.workflow_id ≡ argument "workflow_id" fs)
      × (h.id_text capability.actor_id ≡ argument "actor_id" fs)
      × (is_number (get "revision_id" fs) capability.revision_id ≡ true)
      × (is_operator actor.role ≡ true)
      × (is_active actor.user ≡ true)
      × (workflow.revision_id ≡ capability.revision_id)
      × (digest h workflow.snapshot ≡ ok capability.revision_digest)

  in_scope_lem :
      (now : ℕ) (tool : String) (fs : Fields) (capability : WorkflowCapability) (actor : Operator)
      → out_of_scope h now tool fs capability actor ≡ false
      → (capability.revoked_at ≡ none)
        × (capability.issued_at ≤ now)
        × (now < capability.expires_at)
        × (capability.expires_at ≤ capability.issued_at + 300_000_000)
        × (any (str_eq tool) capability.tools ≡ true)
        × (str_eq (h.id_text capability.workflow_id) (argument "workflow_id" fs) ≡ true)
        × (str_eq (h.id_text capability.actor_id) (argument "actor_id" fs) ≡ true)
        × (is_number (get "revision_id" fs) capability.revision_id ≡ true)
        × (is_operator actor.role ≡ true)
        × (is_active actor.user ≡ true)
  in_scope_lem now tool fs capability actor e = ground arith

  pub of_recorded :
      (tool_name : Json) (s : Store) (r : Result Refusal (Json × Store)) {result : Json} {t : Store}
      → recorded h tool_name s r ≡ (ok result, t)
      → r ≡ ok (result, t)
  of_recorded tool_name s (ok p) e = ground arith
  of_recorded tool_name s (err (denied stage)) e = ground arith
  of_recorded tool_name s (err invalid_arguments) e = ground arith
  of_recorded tool_name s (err does_not_exist) e = ground arith

  -- A call is only answered if the service is authentic, the token is signed, and the capability of the
  -- token covers it: it is not revoked, is within its life of at most 300 seconds, names the tool, and
  -- is that of the workflow, the revision and the actor that the arguments name; the actor is an
  -- active operator; and the workflow has the revision of the capability, unchanged.
  pub dispatch_mcp_tool-Covers :
      (authentic signed : Bool) (now : ℕ) (tool_name : Json) (id : ℕ) (arguments : Json)
      (token : String) (s : Store) (result : Json) (t : Store)
      → dispatch_mcp_tool h authentic signed now tool_name id arguments token s ≡ (ok result, t)
      → (authentic ≡ true)
        × (signed ≡ true)
        × (tool : String) × (fs : Fields) × (tool_name ≡ str tool)
        × (arguments ≡ obj fs)
        × Covers now tool fs token s
  unfolding dispatch_mcp_tool
  dispatch_mcp_tool-Covers authentic signed now tool_name id arguments token s result t e =
      let (
        encoded, tool, fs, capability, actor, workflow, is_authentic, is_signed, valid, named,
        given, found, acting, scope, there, revision, snapshot, _, _, _,
      ) =
        attempt-Answered h authentic signed now tool_name id arguments token s (
          of_recorded tool_name s (attempt h authentic signed now tool_name id arguments token s)
            e) in
      let (unrevoked, issued, expires, short, tools, own, acts, number, operator, active) =
        in_scope_lem now tool fs capability actor scope in
      (
        is_authentic,
        is_signed,
        tool,
        fs,
        named,
        given,
        (
          capability,
          actor,
          workflow,
          found,
          acting,
          there,
          unrevoked,
          issued,
          expires,
          short,
          tools,
          of_str_eq own,
          of_str_eq acts,
          number,
          operator,
          active,
          revision,
          snapshot,
        ),
      )

-- ===== src/Broker/Answered.antt =====
-- A tool call that was answered (backend/agents/mcp.py): what it has passed, and what it did.
use civic_loop.Prelude.Result.{Result, ok, err, of_refuse, of_demand, of_bind, of_ok}
use civic_loop.Prelude.{
  of_str_eq, of_not, ◌∙◌, ==_iff, ltb, ℕ, ◌≡◌, ap, String, Bool, true, false, not, ◌||◌, some,
  arith, ◌==◌, str_eq,
}
use civic_loop.Json.{Json, Fields, null, flag, num, float, str, arr, obj}
use civic_loop.Tool.{Invalid, validate_tool_arguments}
use civic_loop.Capability.{WorkflowCapability, Operator, first, has_digest}
use civic_loop.Broker.{
  denied, does_not_exist, ToolWorkflow, Store, Hashes, checked, digest, argument,
}
use civic_loop.Broker.Dispatch.{
  differs, bind_correlation, save_capability, invoke, out_of_scope, dispatch_bound, tool_text,
  arguments_of, attempt,
}
use Prim.Native.String.{count}

-- The capability as the call binds it to its correlation
abbrev pub bound_of : WorkflowCapability → Fields → WorkflowCapability
bound_of capability fs = record capability {
  correlation_id = bind_correlation capability.correlation_id (argument "correlation_id" fs);
}

or_false3 : {a b c : Bool} → not a || (not b || c) ≡ false → (a ≡ true) × (b ≡ true) × (c ≡ false)
or_false3 h = ground arith

or_not : (a : Bool) {b : Bool} → a || not b ≡ false → b ≡ true
or_not a h = ground arith

module _ (h : Hashes) where
  abbrev pub Answered : Bool → Bool → ℕ → Json → ℕ → Json → String → Store → Json → Store → Type 0
  Answered authentic signed now tool_name id arguments token s result t =
      (encoded : String) × (tool : String) × (fs : Fields) × (capability : WorkflowCapability)
      × (actor : Operator) × (workflow : ToolWorkflow) × (authentic ≡ true)
      × (signed ≡ true)
      × (validate_tool_arguments tool_name arguments ≡ ok encoded)
      × (tool_name ≡ str tool)
      × (arguments ≡ obj fs)
      × (first (has_digest (h.token_digest token)) s.capabilities ≡ some capability)
      × (first (λ (a : Operator). a.id == capability.actor_id) s.actors ≡ some actor)
      × (out_of_scope h now tool fs capability actor ≡ false)
      × (first (λ (w : ToolWorkflow). w.id == capability.workflow_id) s.workflows ≡ some workflow)
      × (workflow.revision_id ≡ capability.revision_id)
      × (digest h workflow.snapshot ≡ ok capability.revision_digest)
      × (workflow.event_id ≡ workflow.revision_event_id)
      × (differs capability.correlation_id (argument "correlation_id" fs) ≡ false)
      × (invoke h tool id fs (bound_of capability fs) workflow encoded
            (record s { capabilities = save_capability (bound_of capability fs) s.capabilities })
          ≡ ok (result, t))

  of_checked : (r : Result Invalid String) {s : String} → checked r ≡ ok s → r ≡ ok s
  of_checked (ok a) e = ap ok (of_ok e)
  of_checked (err x) e = ground arith

  of_text : (v : Json) {s : String} → tool_text h v ≡ ok s → v ≡ str s
  of_text (str s) e = ap str (of_ok e)
  of_text null e = ground arith
  of_text (flag b) e = ground arith
  of_text (num z) e = ground arith
  of_text (float s) e = ground arith
  of_text (arr xs) e = ground arith
  of_text (obj fs) e = ground arith

  of_object : (v : Json) {fs : Fields} → arguments_of h v ≡ ok fs → v ≡ obj fs
  of_object (obj fs) e = ap obj (of_ok e)
  of_object null e = ground arith
  of_object (flag b) e = ground arith
  of_object (num z) e = ground arith
  of_object (float s) e = ground arith
  of_object (str s) e = ground arith
  of_object (arr xs) e = ground arith

  pub attempt-Answered :
      (authentic signed : Bool) (now : ℕ) (tool_name : Json) (id : ℕ) (arguments : Json)
      (token : String) (s : Store) {result : Json} {t : Store}
      → attempt h authentic signed now tool_name id arguments token s ≡ ok (result, t)
      → Answered authentic signed now tool_name id arguments token s result t
  unfolding dispatch_bound
  attempt-Answered authentic signed now tool_name id arguments token s e =
      let (is_authentic, e1) = of_refuse (not authentic) (denied "service_identity") e in
      let (is_signed, e2) =
        of_refuse (ltb 160 (count token) || not signed) (denied "authorization_failed") e1 in
      let (encoded, valid, e3) =
        of_bind (checked (validate_tool_arguments tool_name arguments)) e2 in
      let (tool, named, e4) = of_bind (tool_text h tool_name) e3 in
      let (fs, given, e5) = of_bind (arguments_of h arguments) e4 in
      let (capability, found, e6) =
        of_demand (first (has_digest (h.token_digest token)) s.capabilities)
          (denied "capability_scope") e5 in
      let (actor, acting, e7) =
        of_demand (first (λ (a : Operator). a.id == capability.actor_id) s.actors)
          (denied "capability_scope") e6 in
      let (scope, e8) =
        of_refuse (out_of_scope h now tool fs capability actor) (denied "capability_scope") e7 in
      let (workflow, there, e9) =
        of_demand (first (λ (w : ToolWorkflow). w.id == capability.workflow_id) s.workflows)
          does_not_exist e8 in
      let (same, e10) =
        of_refuse (not (workflow.revision_id == capability.revision_id)) (denied "revision_scope")
          e9 in
      let (revision, digested, e11) = of_bind (digest h workflow.snapshot) e10 in
      let (unchanged, e12) =
        of_refuse
          (not (str_eq revision capability.revision_digest)
            || (not (workflow.event_id == workflow.revision_event_id)
                || differs capability.correlation_id (argument "correlation_id" fs)))
          (denied "revision_scope") e11 in
      let (same_text, same_event, correlated) = or_false3 unchanged in
      (
        encoded,
        tool,
        fs,
        capability,
        actor,
        workflow,
        of_not is_authentic,
        or_not (ltb 160 (count token)) is_signed,
        of_checked _ valid,
        of_text tool_name named,
        of_object arguments given,
        found,
        acting,
        scope,
        there,
        (==_iff _ _).0 (of_not same),
        digested ∙ ap ok (of_str_eq same_text),
        (==_iff _ _).0 same_event,
        correlated,
        e12,
      )

-- ===== src/Broker/Replay.antt =====
-- A tool call that is repeated (backend/agents/mcp.py).
use civic_loop.Prelude.Result.{ok, of_refuse, of_bind, of_ok, bind_pass, refuse_pass}
use civic_loop.Prelude.{
  sym, ℕ, ◌≡◌, refl, ◌∙◌, ap, subst, arith, String, Bool, true, false, Option, none, some, List, [],
  ◌∷◌, ◌++◌, str_eq_refl, ==_refl,
}
use civic_loop.Json.{Json, Fields}
use civic_loop.Capability.{WorkflowCapability, first}
use civic_loop.Broker.{denied, ToolWorkflow, Invocation, Store, Hashes, digest, argument, bounded}
use civic_loop.Broker.Tools.{execute}
use civic_loop.Broker.Dispatch.{
  audited, is_repeat, conflicts, invoke_found, idempotency_of, invoke, with_correlation,
}
use civic_loop.Prelude.{of_some}
use civic_loop.Json.{str, obj}
use civic_loop.Capability.{has_digest}
use civic_loop.Broker.Dispatch.{attempt, dispatch_mcp_tool, save_capability}
use civic_loop.Broker.Answered.{bound_of, attempt-Answered}
use civic_loop.Broker.Scope.{of_recorded}
use civic_loop.Broker.History.{Later, Later-append}

first-append :
    {A : Type 0} (p : A → Bool) (x : A) (xs : List A)
    → first p xs ≡ none
    → p x ≡ true
    → first p (xs ++ x ∷ []) ≡ some x
first-append p x [] n h = ground (arith, h)
first-append p x (y ∷ ys) n h = ground (arith, n, h, first-append p x ys)

-- The invocation of a call that was answered
abbrev Held :
    Hashes → String → Fields → WorkflowCapability → String → String → Json → Store → Type 0
Held h tool fs capability argument_digest idem result s =
    (row : Invocation) × (first (is_repeat h (argument "request_id" fs) idem) s.invocations
      ≡ some row)
    × (conflicts h capability tool argument_digest idem row ≡ false)
    × (row.result ≡ result)

invoke_found-Held :
    (h : Hashes) (o : Option Invocation) (tool : String) (id : ℕ) (fs : Fields)
    (capability : WorkflowCapability) (workflow : ToolWorkflow) (argument_digest idem : String)
    (s : Store) (result : Json) (t : Store)
    → first (is_repeat h (argument "request_id" fs) idem) s.invocations ≡ o
    → invoke_found h o tool id fs capability workflow argument_digest idem s ≡ ok (result, t)
    → Held h tool fs capability argument_digest idem result t
invoke_found-Held h none tool id fs capability workflow argument_digest idem s result t found e =
    let ((answer, (submissions, operations)), _, e1) =
      of_bind (execute h tool id fs capability workflow s.submissions s.operations) e in
    let outcome = with_correlation (argument "correlation_id" fs) answer in
    let (_, _, e2) = of_bind (bounded outcome) e1 in
    let row : Invocation = record {
      capability_id = capability.id;
      request_id = argument "request_id" fs;
      idempotency_digest = idem;
      argument_digest = argument_digest;
      tool_name = tool;
      result = outcome;
    } in
    let same = of_ok e2 in
    (
      row,
      subst (λ p. first (is_repeat h (argument "request_id" fs) idem) p.1.invocations ≡ some row)
          same
          (first-append (is_repeat h (argument "request_id" fs) idem) row s.invocations found
            (ground (arith, str_eq_refl (argument "request_id" fs)))),
      ground (
        arith,
        ==_refl capability.id,
        str_eq_refl tool,
        str_eq_refl argument_digest,
        str_eq_refl idem,
      ),
      ap (λ p. p.0) same,
    )
invoke_found-Held h (some row) tool id fs capability workflow argument_digest idem s result t found
      e =
    let (own, e1) =
      of_refuse (conflicts h capability tool argument_digest idem row)
        (denied "invocation_replay_conflict") e in
    let same = of_ok e1 in
    (
      row,
      subst (λ p. first (is_repeat h (argument "request_id" fs) idem) p.1.invocations ≡ some row)
          same found,
      own,
      ap (λ p. p.0) same,
    )

first-extends :
    {A : Type 0} (p : A → Bool) (xs more : List A) {x : A}
    → first p xs ≡ some x
    → first p (xs ++ more) ≡ some x
first-extends p [] more h = ground arith
first-extends p (y ∷ ys) more {x} h =
    ground (arith, λ (e : first p ys ≡ some x). first-extends p ys more e)

-- A call that was answered, repeated under the same capability once more records have come, writes the
-- audit event of a replay only.
invoke_again :
    (h : Hashes) (tool : String) (id again : ℕ) (fs : Fields)
    (capability now_capability : WorkflowCapability) (workflow later : ToolWorkflow)
    (encoded : String) (s : Store) (result : Json) (t u : Store) (more : List Invocation)
    → invoke h tool id fs capability workflow encoded s ≡ ok (result, t)
    → u.invocations ≡ t.invocations ++ more
    → now_capability.id ≡ capability.id
    → invoke h tool again fs now_capability later encoded u
      ≡ ok (result, audited h "mcp.tool_replayed" now_capability tool fs u)
unfolding invoke
invoke_again h tool id again fs capability now_capability workflow later encoded s result t u more e
      kept same_id =
    let (idem, digested, e1) = of_bind (digest h (idempotency_of h capability fs)) e in
    let repeat = is_repeat h (argument "request_id" fs) idem in
    let (row, found, own, same) =
      invoke_found-Held h (first repeat s.invocations) tool id fs capability workflow
        (h.sha256 encoded) idem s result t refl e1 in
    bind_pass (digest h (idempotency_of h now_capability fs)) _
      (ap (λ n. digest h (idempotency_of h (record capability { id = n }) fs)) same_id ∙ digested)
    ∙ ap (λ o. invoke_found h o tool again fs now_capability later (h.sha256 encoded) idem u)
        (ap (first repeat) kept ∙ first-extends repeat t.invocations more found)
    ∙ refuse_pass (conflicts h now_capability tool (h.sha256 encoded) idem row) _ _ (
        ap (λ n. conflicts h (record capability { id = n }) tool (h.sha256 encoded) idem row)
          same_id
        ∙ own)
    ∙ ap (λ r. ok (r, audited h "mcp.tool_replayed" now_capability tool fs u)) same

module _ (h : Hashes) where
  -- What a call left of another is as it was.
  abbrev pub Unchanged : Store → Store → Type 0
  Unchanged u v =
      (v.submissions ≡ u.submissions)
      × (v.operations ≡ u.operations)
      × (v.invocations ≡ u.invocations)

  of_same_call :
      (P : String → Fields → String → Type 0) {tool tool' : String} {fs fs' : Fields}
      {encoded encoded' : String} {tool_name arguments : Json}
      → tool_name ≡ str tool
      → tool_name ≡ str tool'
      → arguments ≡ obj fs
      → arguments ≡ obj fs'
      → encoded ≡ encoded'
      → P tool' fs' encoded'
      → P tool fs encoded
  of_same_call P {tool} {tool'} {fs} {fs'} {encoded} {encoded'} t t' f f' e p =
      let same : tool' ≡ tool = cc in
      let same_fs : fs' ≡ fs = cc in
      subst (λ x. P x fs encoded) same
        (subst (λ x. P tool' x encoded) same_fs (subst (P tool' fs') (sym e) p))

  -- A tool call that was answered does nothing when it is repeated: whatever calls come in between, in
  -- whatever order, and whatever becomes of the other tables and the clock, if the token is still that
  -- of the same capability and the repeated call is answered, then it is answered the same, and it
  -- writes no submission, no operation and no record of a call.
  pub dispatch_mcp_tool_again :
      (authentic signed authentic' signed' : Bool) (now later : ℕ) (tool_name : Json) (id again : ℕ)
      (arguments : Json) (token : String) (s t u v : Store) (result result' : Json)
      (capability capability' : WorkflowCapability)
      → dispatch_mcp_tool h authentic signed now tool_name id arguments token s ≡ (ok result, t)
      → Later h t u
      → dispatch_mcp_tool h authentic' signed' later tool_name again arguments token u
        ≡ (ok result', v)
      → first (has_digest (h.token_digest token)) s.capabilities ≡ some capability
      → first (has_digest (h.token_digest token)) u.capabilities ≡ some capability'
      → capability'.id ≡ capability.id
      → (result' ≡ result) × Unchanged u v
  unfolding dispatch_mcp_tool
  dispatch_mcp_tool_again authentic signed authentic' signed' now later tool_name id again arguments
        token s t u v result result' capability capability' e l e' found found' same_id =
      let (
        encoded, tool, fs, c, actor, workflow, _, _, valid, named, given, is_c, _, _, _, _, _, _, _,
        invoked,
      ) =
        attempt-Answered h authentic signed now tool_name id arguments token s (
          of_recorded h tool_name s (attempt h authentic signed now tool_name id arguments token s)
            e) in
      let (
        encoded', tool', fs', c', actor', workflow', _, _, valid', named', given', is_c', _, _, _,
        _, _, _, _, invoked',
      ) =
        attempt-Answered h authentic' signed' later tool_name again arguments token u (
          of_recorded h tool_name u
            (attempt h authentic' signed' later tool_name again arguments token u) e') in
      let (more, kept) = Later-append h l in
      let same : c'.id ≡ c.id =
        ap (λ (x : WorkflowCapability). x.id) (of_some (sym is_c' ∙ found'))
        ∙ same_id
        ∙ ap (λ (x : WorkflowCapability). x.id) (of_some (sym found ∙ is_c)) in
      let bound = λ (x : Fields). record u {
        capabilities = save_capability (bound_of c' x) u.capabilities;
      } in
      let second : invoke h tool again fs (bound_of c' fs) workflow' encoded (bound fs)
          ≡ ok (result', v) =
        of_same_call
          (λ x y z. invoke h x again y (bound_of c' y) workflow' z (bound y) ≡ ok (result', v))
          named named' given given' (of_ok (sym valid ∙ valid')) invoked' in
      let replayed = of_ok (
        sym second
        ∙ invoke_again h tool id again fs (bound_of c fs) (bound_of c' fs) workflow workflow'
            encoded _ result t (bound fs) more invoked kept same) in
      (
        ap (λ p. p.0) replayed,
        (
          ap (λ p. p.1.submissions) replayed,
          ap (λ p. p.1.operations) replayed,
          ap (λ p. p.1.invocations) replayed,
        ),
      )

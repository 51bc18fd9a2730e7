-- ===== src/Broker/Accepted.antt =====
-- The operations that the broker (backend/agents/mcp.py) opens, as `validate_intent`
-- (backend/integrations/draft_operations.py) finds them.
use civic_loop.Prelude.Result.{
  Result, ok, err, ◌>>=◌, ◌>>◌, of_ok, bind_pass, demand_pass, refuse_pass,
}
use civic_loop.Prelude.Table.{find, key-find}
use civic_loop.Prelude.{
  ℕ, ◌≡◌, sym, ◌∙◌, ap, subst, arith, String, true, false, not, ◌||◌, some, str_eq, ◌==◌,
  str_eq_refl, ==_refl, any,
}
use civic_loop.Json.{Json}
use civic_loop.Tool.{Invalid, bounded_json}
use civic_loop.Capability.{WorkflowCapability, audience_name}
use civic_loop.Draft.{Workflow, Proposal, Binding, Run, World, Contracts}
use civic_loop.Draft.Acceptance.{
  is_draft_kind, tool_of, is_text, require_schema, action_of, idempotency_of, run_differs,
  capability_differs, intent_differs, validate_intent,
}
use civic_loop.Draft.Acceptance.{digest as intent_digest, lift}
use civic_loop.Broker.{Hashes, checked, digest}
use civic_loop.Broker.Tools.{action_json, idempotency_json, new_operation}

-- The hashes of the broker, which are those of the drafts
abbrev pub shared : Contracts → (String → String) → Hashes
shared c token_digest = record {
  sha256 = c.sha256;
  token_digest = token_digest;
  id_text = c.id_text;
}

module _ (c : Contracts) (token_digest : String → String) where
  -- Both modules digest a value alike.
  same_digest :
      (v : Json) {d : String} → digest (shared c token_digest) v ≡ ok d → intent_digest c v ≡ ok d
  unfolding digest intent_digest
  same_digest v {d} e = go (bounded_json v) e
    where
      go :
          (r : Result Invalid String)
          → (checked r >>= λ s. ok (c.sha256 s)) ≡ ok d
          → (lift r >>= λ s. ok (c.sha256 s)) ≡ ok d
      go (ok s) e = ap ok (of_ok e)
      go (err x) e = ground arith

  -- What `validate_intent` wants of a run, the workflow and the capability of a proposal
  abbrev pub Fits : WorkflowCapability → Proposal → String → Run → World → Type 0
  Fits capability proposal provider run w =
      (workflow : Workflow) × (binding : Binding) × (find (λ (x : Workflow). x.id)
          capability.workflow_id w.workflows
        ≡ some workflow)
      × (digest (shared c token_digest) workflow.snapshot ≡ ok capability.revision_digest)
      × (workflow.revision_id ≡ capability.revision_id)
      × (run_differs c workflow run ≡ false)
      × (run.hermes_binding ≡ some binding)
      × (binding.actor_id ≡ capability.actor_id)
      × (binding.revision_digest ≡ capability.revision_digest)
      × (run.control ≡ some (some proposal.capability.id))
      × (str_eq proposal.capability.audience audience_name ≡ true)
      × (is_text proposal.capability.correlation_id binding.correlation_id ≡ true)
      × (any (str_eq (tool_of provider)) proposal.capability.tools ≡ true)

  -- What `_proposal` leaves of a proposal that it finds
  abbrev pub Own : WorkflowCapability → Proposal → Type 0
  Own capability proposal =
      (str_eq proposal.kind "proposal" ≡ true)
      × (proposal.capability.workflow_id ≡ capability.workflow_id)
      × (proposal.capability.revision_id ≡ capability.revision_id)
      × (proposal.capability.revision_digest ≡ capability.revision_digest)
      × (proposal.capability.actor_id ≡ capability.actor_id)
      × (digest (shared c token_digest) proposal.content ≡ ok proposal.digest)

  capability-fits :
      (capability : WorkflowCapability) (proposal : Proposal) (provider kind : String) (id : ℕ)
      (workflow : Workflow) (binding : Binding) (action idem : String)
      → workflow.id ≡ capability.workflow_id
      → workflow.revision_id ≡ capability.revision_id
      → Own capability proposal
      → str_eq proposal.capability.audience audience_name ≡ true
      → is_text proposal.capability.correlation_id binding.correlation_id ≡ true
      → any (str_eq (tool_of provider)) proposal.capability.tools ≡ true
      → capability_differs c workflow
          (new_operation (shared c token_digest) id capability proposal provider kind action idem)
          binding
          (some proposal.capability.id)
          capability.revision_digest
        ≡ false
  capability-fits capability proposal provider kind id workflow binding action idem same revision
        (_, pw, pr, pd, pa, _) audience text tools =
      ground (
        arith,
        ==_refl proposal.capability.id,
        ==_refl workflow.id,
        ==_refl workflow.revision_id,
        ==_refl capability.actor_id,
        str_eq_refl capability.revision_digest,
        same,
        revision,
        pw,
        pr,
        pd,
        pa,
        audience,
        text,
        tools,
      )

  -- An operation of a proposal that fits is accepted.
  pub opened-accepted :
      (capability : WorkflowCapability) (proposal : Proposal) (provider kind : String) (id : ℕ)
      (run : Run) (w : World) {action idem : String}
      → Fits capability proposal provider run w
      → Own capability proposal
      → is_draft_kind provider kind ≡ true
      → digest
          (shared c token_digest)
          (action_json (shared c token_digest) capability provider kind proposal.digest)
        ≡ ok action
      → digest
          (shared c token_digest)
          (idempotency_json (shared c token_digest) capability kind action)
        ≡ ok idem
      → let intent =
          new_operation (shared c token_digest) id capability proposal provider kind action idem in
        require_schema intent ≡ ok tt
        → validate_intent c intent run w ≡ ok capability.revision_digest
  unfolding validate_intent
  opened-accepted capability proposal provider kind id run w {action} {idem}
        (
          workflow, binding, found, snapshot, revision, runs, bound, actor, digested, control,
          audience, text, tools,
        )
        (is_proposal, pw, pr, pd, pa, content) drafts acted keyed schema =
      let intent =
        new_operation (shared c token_digest) id capability proposal provider kind action idem in
      let same : workflow.id ≡ capability.workflow_id =
        key-find (λ (x : Workflow). x.id) capability.workflow_id w.workflows found in
      demand_pass _ _ _ found
      ∙ bind_pass _ _ (same_digest _ snapshot)
      ∙ bind_pass (intent_digest c (action_of c workflow intent capability.revision_digest)) _ (
          subst
            (λ n.
              intent_digest c (
                action_json (shared c token_digest) (record capability { workflow_id = n }) provider
                  kind proposal.digest)
              ≡ ok action)
            (sym same) (same_digest _ acted))
      ∙ bind_pass (intent_digest c (idempotency_of c workflow intent action)) _ (
          subst
            (λ n.
              intent_digest c (
                idempotency_json (shared c token_digest) (record capability { workflow_id = n })
                  kind action)
              ≡ ok idem)
            (sym same) (same_digest _ keyed))
      ∙ refuse_pass (run_differs c workflow run) _ _ runs
      ∙ demand_pass _ _ _ bound
      ∙ refuse_pass
          (not (binding.actor_id == capability.actor_id)
            || not (str_eq binding.revision_digest capability.revision_digest))
          _ _ (ground (arith, str_eq_refl capability.revision_digest, ==_refl capability.actor_id))
      ∙ demand_pass _ _ _ control
      ∙ refuse_pass
          (capability_differs c workflow intent binding (some proposal.capability.id)
            capability.revision_digest)
          _ _
          (capability-fits capability proposal provider kind id workflow binding action idem same
            revision (is_proposal, pw, pr, pd, pa, content) audience text tools)
      ∙ refuse_pass
          (not (capability.revision_id == workflow.revision_id)
            || not (str_eq proposal.kind "proposal"))
          _ _ (ground (arith, ==_refl capability.revision_id, is_proposal, revision))
      ∙ bind_pass _ _ (same_digest _ content)
      ∙ refuse_pass (not (str_eq proposal.digest proposal.digest)) _ _
          (ground (arith, str_eq_refl proposal.digest))
      ∙ refuse_pass (intent_differs c intent action idem) _ _
          (ground (arith, str_eq_refl action, str_eq_refl idem, drafts))
      ∙ ap (λ r. r >> ok capability.revision_digest) schema

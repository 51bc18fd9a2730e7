-- ===== src/Broker/Opened.antt =====
-- A request for drafts that the broker (backend/agents/mcp.py) answers: the operations that it opens are
-- those that the drafts (backend/integrations/draft_operations.py) accept.
use civic_loop.Prelude.Result.{Result, ok, ◌>>=◌, of_ok, of_bind, of_refuse, of_demand, bind_pass}
use civic_loop.Prelude.{
  of_and, of_not, of_str_eq, All, ==_iff, all, ℕ, suc, ◌≡◌, refl, sym, ◌∙◌, ap, subst, arith,
  String, Bool, true, false, not, ◌&&◌, Option, none, some, List, [], ◌∷◌, ◌++◌, str_eq, ◌==◌,
  if◌then◌else◌,
}
use civic_loop.Json.{Json, Fields, Items, obj, arr, field, end}
use civic_loop.Capability.{WorkflowCapability, first}
use civic_loop.Draft.{Error, Proposal, Intent, Run, World, Contracts}
use civic_loop.Draft.Acceptance.{is_draft_kind, tool_of, denied, validate_intent}
use civic_loop.Broker.{ToolWorkflow, Submission, argument, Refusal, digest}
use mathlib.Core.List.{append_assoc, append-nil}
use civic_loop.Tool.{validate, proposal as proposal_schema}
use civic_loop.Broker.Tools.{
  Written, kinds, execute, is_own, own_proposal, action_json, idempotency_json, new_operation,
  request_operations, stored_operation,
}
use civic_loop.Broker.Accepted.{shared, Fits, Own, opened-accepted}

first-holds : {A : Type 0} (p : A → Bool) (xs : List A) {x : A} → first p xs ≡ some x → p x ≡ true
first-holds p [] h = ground arith
first-holds p (y ∷ ys) {x} h = ground (arith, λ (e : first p ys ≡ some x). first-holds p ys e)

module _ (c : Contracts) (token_digest : String → String) where
  -- The operations are those before and accepted ones behind them.
  abbrev pub Extends : String → Run → World → List Intent → List Intent → Type 0
  Extends revision_digest run w operations after =
      (added : List Intent) × (after ≡ operations ++ added)
      × All (λ x. validate_intent c x run w ≡ ok revision_digest) added

  abbrev are_draft_kinds : String → List String → Bool
  are_draft_kinds provider [] = true
  are_draft_kinds provider (kind ∷ rest) =
      is_draft_kind provider kind && are_draft_kinds provider rest

  stored-Extends :
      (o : Option Intent) (revision_digest : String) (run : Run) (w : World) (x : Intent)
      (operations after : List Intent)
      → validate_intent c x run w ≡ ok revision_digest
      → Extends revision_digest run w
          (stored_operation (shared c token_digest) o x operations).1
          after
      → Extends revision_digest run w operations after
  stored-Extends (some existing) revision_digest run w x operations after ok_x extends = extends
  stored-Extends none revision_digest run w x operations after ok_x (added, e, all) =
      (x ∷ added, e ∙ append_assoc operations (x ∷ []) added, (ok_x, all))

  schema_for :
      (b : Bool) (r : Result Error (Unit {0}))
      → (b ≡ true → r ≡ ok tt)
      → (if b then r else ok tt) ≡ ok tt
  schema_for true r h = h refl
  schema_for false r h = refl

  requested-Extends :
      (names : List String) (capability : WorkflowCapability) (proposal : Proposal)
      (provider : String) (id : ℕ) (run : Run) (w : World) (operations : List Intent)
      {payloads : Items} {after : List Intent}
      → Fits c token_digest capability proposal provider run w
      → Own c token_digest capability proposal
      → are_draft_kinds provider names ≡ true
      → (str_eq provider "iterable" ≡ true
          → denied (validate proposal.content proposal_schema) ≡ ok tt)
      → request_operations (shared c token_digest) names id capability proposal provider operations
        ≡ ok (payloads, after)
      → Extends capability.revision_digest run w operations after
  requested-Extends [] capability proposal provider id run w operations fits own names schema e =
      ([], ap (λ p. p.1) (sym (of_ok e)) ∙ sym (append-nil operations), tt)
  requested-Extends (kind ∷ rest) capability proposal provider id run w operations {payloads}
        {after} fits own names schema e =
      let h = shared c token_digest in
      let (action, acted, e1) =
        of_bind (digest h (action_json h capability provider kind proposal.digest)) e in
      let (idem, keyed, e2) = of_bind (digest h (idempotency_json h capability kind action)) e1 in
      let x = new_operation h id capability proposal provider kind action idem in
      let o = first (λ (x : Intent). str_eq x.idempotency_key idem) operations in
      let ((items, held), e4, e3) =
        of_bind
          (request_operations h rest (suc id) capability proposal provider
            (stored_operation h o x operations).1)
          e2 in
      let (one, others) = of_and (is_draft_kind provider kind) names in
      subst (Extends capability.revision_digest run w operations) (ap (λ p. p.1) (of_ok e3)) (
        stored-Extends o capability.revision_digest run w x operations held
          (opened-accepted c token_digest capability proposal provider kind id run w fits own one
            acted keyed
            (schema_for (str_eq provider "iterable")
              (denied (validate proposal.content proposal_schema)) schema))
          (requested-Extends rest capability proposal provider (suc id) run w
            (stored_operation h o x operations).1 fits own others schema e4))

  is_own-Own :
      (capability : WorkflowCapability) (id : String) (row : Submission) {content : String}
      → is_own (shared c token_digest) capability id row ≡ true
      → digest (shared c token_digest) row.proposal.content ≡ ok content
      → not (str_eq row.proposal.digest content) ≡ false
      → Own c token_digest capability row.proposal
  is_own-Own capability id row {content} own digested kept =
      let proposal = row.proposal in
      let (_, own1) = of_and (str_eq (c.id_text row.id) id) own in
      let (is_proposal, own2) = of_and (str_eq proposal.kind "proposal") own1 in
      let (workflow, own3) =
        of_and (proposal.capability.workflow_id == capability.workflow_id) own2 in
      let (revision, own4) =
        of_and (proposal.capability.revision_id == capability.revision_id) own3 in
      let (revision_digest, actor) =
        of_and (str_eq proposal.capability.revision_digest capability.revision_digest) own4 in
      (
        is_proposal,
        (==_iff _ _).0 workflow,
        (==_iff _ _).0 revision,
        of_str_eq revision_digest,
        (==_iff _ _).0 actor,
        digested ∙ ap ok (sym (of_str_eq (of_not kept))),
      )

  own_proposal-Own :
      (fs : Fields) (capability : WorkflowCapability) (submissions : List Submission)
      {found : Submission}
      → own_proposal (shared c token_digest) fs capability submissions ≡ ok found
      → Own c token_digest capability found.proposal
  own_proposal-Own fs capability submissions {found} e =
      let h = shared c token_digest in
      let own = is_own h capability (argument "proposal_id" fs) in
      let (row, there, e1) =
        of_demand (first own submissions) (Refusal.denied "proposal_unavailable") e in
      let (content, digested, e2) = of_bind (digest h row.proposal.content) e1 in
      let (kept, e3) =
        of_refuse (not (str_eq row.proposal.digest content)) (Refusal.denied "proposal_integrity")
          e2 in
      subst (λ (x : Submission). Own c token_digest capability x.proposal) (of_ok e3)
        (is_own-Own capability (argument "proposal_id" fs) row (first-holds own submissions there)
          digested kept)

  answered-Extends :
      (provider : String) (id : ℕ) (capability : WorkflowCapability) (proposal : Proposal)
      (submissions : List Submission) (operations : List Intent) (run : Run) (w : World)
      {result : Json} {left : List Submission} {after : List Intent}
      → Fits c token_digest capability proposal provider run w
      → Own c token_digest capability proposal
      → are_draft_kinds provider (kinds provider) ≡ true
      → (str_eq provider "iterable" ≡ true
          → denied (validate proposal.content proposal_schema) ≡ ok tt)
      → ◌>>=◌ {B = Written}
          (request_operations
            (shared c token_digest)
            (kinds provider)
            id
            capability
            proposal
            provider
            operations)
          (λ (payloads, held).
            ok (obj (field "operations" (arr payloads) end), (submissions, held)))
        ≡ ok (result, (left, after))
      → Extends capability.revision_digest run w operations after
  answered-Extends provider id capability proposal submissions operations run w fits own names
        schema e =
      let ((payloads, held), requested, e1) =
        of_bind
          (request_operations (shared c token_digest) (kinds provider) id capability proposal
            provider operations)
          e in
      subst (Extends capability.revision_digest run w operations) (ap (λ p. p.1.1) (of_ok e1)) (
        requested-Extends (kinds provider) capability proposal provider id run w operations fits own
          names schema requested)

  abbrev pub provider_of : Bool → String
  provider_of is_eventbrite = if is_eventbrite then "eventbrite" else "iterable"

  -- A request for drafts that the broker answers keeps the operations that there are, and
  -- `validate_intent` accepts every operation that it adds, if: the proposal is the capability's own
  -- and, for Iterable, its content fits the schema; the workflow is of the capability's revision,
  -- unchanged; the run has succeeded in the Hermes lane for this workflow, revision and package,
  -- bound to the same actor and revision; and the proposal's capability is the run's, of the
  -- broker's audience and the run's correlation, and names the tool.
  pub execute-Extends :
      (is_eventbrite : Bool) (id : ℕ) (fs : Fields) (capability : WorkflowCapability)
      (workflow : ToolWorkflow) (submissions : List Submission) (operations : List Intent)
      (run : Run) (w : World) {found : Submission} {result : Json} {left : List Submission}
      {after : List Intent}
      → own_proposal (shared c token_digest) fs capability submissions ≡ ok found
      → Fits c token_digest capability found.proposal (provider_of is_eventbrite) run w
      → (is_eventbrite ≡ false → denied (validate found.proposal.content proposal_schema) ≡ ok tt)
      → execute
          (shared c token_digest)
          (tool_of (provider_of is_eventbrite))
          id
          fs
          capability
          workflow
          submissions
          operations
        ≡ ok (result, (left, after))
      → Extends capability.revision_digest run w operations after
  unfolding execute
  execute-Extends true id fs capability workflow submissions operations run w {found} own fits
        schema e =
      answered-Extends "eventbrite" id capability found.proposal submissions operations run w fits
        (own_proposal-Own fs capability submissions own) refl (λ b. ground arith)
        (sym (bind_pass (own_proposal (shared c token_digest) fs capability submissions) _ own) ∙ e)
  execute-Extends false id fs capability workflow submissions operations run w {found} own fits
        schema e =
      answered-Extends "iterable" id capability found.proposal submissions operations run w fits
        (own_proposal-Own fs capability submissions own) refl (λ _. schema refl)
        (sym (bind_pass (own_proposal (shared c token_digest) fs capability submissions) _ own) ∙ e)

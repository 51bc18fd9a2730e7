-- ===== src/Draft/System/Once.antt =====
-- At most one request for every operation, whatever calls run in whatever order
-- (backend/integrations/draft_operations.py).
use civic_loop.Draft.System.Ends.{finish-Moves, abort-Moves}
use civic_loop.Draft.System.Claims.{
  of_start_reconcile, of_approve, of_claim, Approved-Moves, Claimed-Moves,
}
use civic_loop.Draft.Dispatch.{Worker}
use civic_loop.Draft.System.Submits.{
  Submitted-Moves, submit_draft-Submitted, submit_template-Submitted, Moves,
}
use civic_loop.Draft.System.Spec.{Run, status_at, started}
use civic_loop.Draft.System.{
  Reach, then_step, requested, Step, submits, submits_template, approves, claims, reconciles, sends,
  aborts, finishes, crashes, loses, State, is_for, calls,
}
use civic_loop.Draft.System.Spec.{Run}
use civic_loop.Draft.System.{start}
use civic_loop.Prelude.{
  ℕ, ◌+◌, ◌≤◌, ◌≡◌, sym, ◌∙◌, ap, arith, true, false, some, List, ◌∷◌, ◌++◌, inl, inr, Bool-cases,
}
use civic_loop.Draft.{approved, executing, Kind, draft, template, Store, Contracts}
use civic_loop.Draft.System.Counts.{
  all_calls, Invariant, one_sender, calls-split, senders-split, senders-calls, of_is_for,
  not_started, Invariant-shrinks, ready-started, waiting-started, same-Moves, ready-less,
  waiting-less,
}

-- The claim of an operation that has no call
claim-Invariant :
    (s : State) (k : Worker) (t : Store)
    → Invariant s
    → Moves s.store t
    → k.is_reconciling ≡ false
    → status_at k.kind k.operation.id s.store ≡ some approved
    → status_at k.kind k.operation.id t ≡ some executing
    → Invariant (record s { store = t; ready = k ∷ s.ready })
unfolding Invariant
claim-Invariant s k t i m writes before after kind id = elim (Bool-cases (is_for kind id k)) [
  | inl own ↦
      let (same_kind, same_id) = of_is_for kind id k own in
      let absent : all_calls kind id s ≡ 0 = (i kind id).0 (
        ap (λ a. started (status_at a id s.store)) (sym same_kind)
        ∙ ap (λ n. started (status_at k.kind n s.store)) (sym same_id)
        ∙ ap started before) in
      let begun : started (status_at kind id t) ≡ true =
        ap (λ a. started (status_at a id t)) (sym same_kind)
        ∙ ap (λ n. started (status_at k.kind n t)) (sym same_id)
        ∙ ap started after in
      (λ h. ground (arith, h, begun), ground (arith, own, absent, senders-calls kind id s.ready))
  | inr other ↦ (
    λ h. ground (arith, other, (i kind id).0 (not_started (m kind id) h)),
    ground (arith, other, (i kind id).1),
  )
]

-- A reconciliation sends nothing, and its operation was claimed.
reconcile-Invariant :
    (s : State) (k : Worker)
    → Invariant s
    → k.is_reconciling ≡ true
    → started (status_at k.kind k.operation.id s.store) ≡ true
    → Invariant (record s { ready = k ∷ s.ready })
unfolding Invariant
reconcile-Invariant s k i reads begun kind id = elim (Bool-cases (is_for kind id k)) [
  | inl own ↦
      let (same_kind, same_id) = of_is_for kind id k own in
      let here : started (status_at kind id s.store) ≡ true =
        ap (λ a. started (status_at a id s.store)) (sym same_kind)
        ∙ ap (λ n. started (status_at k.kind n s.store)) (sym same_id)
        ∙ begun in
      (λ h. ground (arith, h, here), ground (arith, reads, (i kind id).1))
  | inr other ↦ (λ h. ground (arith, other, (i kind id).0 h), ground (arith, other, (i kind id).1))
]

calls-requested :
    (kind : Kind) (id : ℕ) (k : Worker) (xs : List Worker)
    → calls kind id (requested k xs) ≡ one_sender kind id k + calls kind id xs
calls-requested kind id k xs = elim (Bool-cases k.is_reconciling) [
  | inl reads ↦ ground (arith, reads)
  | inr writes ↦ ground (arith, writes)
]

-- A request takes the place of the call that could send it.
send-Invariant :
    (s : State) (k : Worker) (before after : List Worker)
    → Invariant s
    → s.ready ≡ before ++ k ∷ after
    → Invariant (record s {
      ready = before ++ after;
      waiting = k ∷ s.waiting;
      requests = requested k s.requests;
    })
unfolding Invariant
send-Invariant s k before after i e kind id = (
  λ h.
      let none_there = (i kind id).0 h in
      ground (
        arith,
        none_there,
        calls-split kind id k before after s.ready e,
        calls-requested kind id k s.requests,
      ),
  omega (
    arith,
    (i kind id).1,
    senders-split kind id k before after s.ready e,
    calls-requested kind id k s.requests,
  ),
)

module _ (c : Contracts) where
  pub Step-Moves : {s t : State} → Invariant s → Step c s t → Moves s.store t.store
  Step-Moves i (submits now w id user r x s t' absent e) =
      Submitted-Moves draft id s.store t' absent
        (submit_draft-Submitted c now w id user r s.store e)
  Step-Moves i (submits_template now w id user intent_id run_id sender region x s t' absent e) =
      Submitted-Moves template id s.store t' absent
        (submit_template-Submitted c now w id user intent_id run_id sender region s.store e)
  Step-Moves i (approves now w kind user session_id id shown revision_id x s t' e) =
      Approved-Moves kind user now id shown s.store x t'
        (of_approve c now w kind user session_id id shown revision_id s.store e)
  Step-Moves i (claims now w kind user session_id id k s t' e) =
      (Claimed-Moves c now w kind user session_id id s.store k t'
        (of_claim c now w false kind user session_id id s.store e)).0
  Step-Moves i (reconciles now w kind user session_id id k s e) = same-Moves s.store
  Step-Moves i (sends now w leased k before after s e p) = same-Moves s.store
  Step-Moves i (aborts now w leased k before after error s t' e p a) =
      abort-Moves now k error s.store (ready-started s k before after i e) a
  Step-Moves i (finishes now k reply before after s t' e f) =
      finish-Moves now k reply s.store (waiting-started s k before after i e) f
  Step-Moves i (crashes k before after s e) = same-Moves s.store
  Step-Moves i (loses k before after s e) = same-Moves s.store

  Step-Invariant : {s t : State} → Invariant s → Step c s t → Invariant t
  Step-Invariant i (submits now w id user r x s t' absent e) =
      Invariant-shrinks s (record s { store = t' }) i
        (Submitted-Moves draft id s.store t' absent
          (submit_draft-Submitted c now w id user r s.store e))
        (λ kind j. (omega arith, omega arith))
  Step-Invariant i (submits_template now w id user intent_id run_id sender region x s t' absent e) =
      Invariant-shrinks s (record s { store = t' }) i
        (Submitted-Moves template id s.store t' absent
          (submit_template-Submitted c now w id user intent_id run_id sender region s.store e))
        (λ kind j. (omega arith, omega arith))
  Step-Invariant i (approves now w kind user session_id id shown revision_id x s t' e) =
      Invariant-shrinks s (record s { store = t' }) i
        (Approved-Moves kind user now id shown s.store x t'
          (of_approve c now w kind user session_id id shown revision_id s.store e))
        (λ kind j. (omega arith, omega arith))
  Step-Invariant i (claims now w kind user session_id id k s t' e) =
      let (m, _, writes, before, after) =
        Claimed-Moves c now w kind user session_id id s.store k t'
          (of_claim c now w false kind user session_id id s.store e) in
      claim-Invariant s k t' i m writes before after
  Step-Invariant i (reconciles now w kind user session_id id k s e) =
      let (same, reads, begun) =
        of_start_reconcile c now w false kind user session_id id s.store e in
      reconcile-Invariant s k i reads (rw same begun)
  Step-Invariant i (sends now w leased k before after s e p) = send-Invariant s k before after i e
  Step-Invariant i (aborts now w leased k before after error s t' e p a) =
      Invariant-shrinks s (record s { store = t'; ready = before ++ after }) i
        (abort-Moves now k error s.store (ready-started s k before after i e) a)
        (ready-less s k before after e)
  Step-Invariant i (finishes now k reply before after s t' e f) =
      Invariant-shrinks s (record s { store = t'; waiting = before ++ after }) i
        (finish-Moves now k reply s.store (waiting-started s k before after i e) f)
        (waiting-less s k before after e)
  Step-Invariant i (crashes k before after s e) =
      Invariant-shrinks s (record s { ready = before ++ after }) i (same-Moves s.store)
        (ready-less s k before after e)
  Step-Invariant i (loses k before after s e) =
      Invariant-shrinks s (record s { waiting = before ++ after }) i (same-Moves s.store)
        (waiting-less s k before after e)

  pub Reach-Invariant : {s : State} → Reach c s → Invariant s
  unfolding Invariant
  Reach-Invariant start = λ kind id. (λ h. omega arith, omega arith)
  Reach-Invariant (then_step s t r step) = Step-Invariant (Reach-Invariant r) step

-- Every operation is sent to its provider at most once: whatever submissions, approvals, claims,
-- requests, replies, failures, crashes and reconciliations run in whatever order, at whatever times,
-- and whatever the other tables and the settings become meanwhile, a draft or template that can be
-- reached has at most one request to create or update it.
pub requested_once :
    (c : Contracts) (s : State) (kind : Kind) (id : ℕ) → Reach c s → calls kind id s.requests ≤ 1
unfolding Invariant
requested_once c s kind id r = omega (arith, (Reach-Invariant c r kind id).1)

-- ===== src/Launch/Workflow/Calls/Decision.antt =====
-- When `decide_approval` of backend/launchloop/services.py returns, and that a decision is final.
use civic_loop.Launch.{Package}
use civic_loop.Launch.Workflow.Consistency.Kept.{Rows-at}
use civic_loop.Launch.Workflow.Consistency.Decided.{pending-Rows}
use civic_loop.Launch.Workflow.Consistency.{IsConsistent}
use civic_loop.Launch.Owner.{Calendar}
use package.text.Mathlib.TextEquality.{eq_iff}
use Prim.Native.String.{◌++◌ as append}
use civic_loop.Launch.Workflow.Consistency.Returned.{
  may_decide_ok, decide_approval_ok, approved_board, approve_ok,
}
use civic_loop.Launch.Workflow.Calls.{
  create_execution, is_pending, reject, approve, may_decide, decide_approval,
}
use civic_loop.Launch.Workflow.{
  DemoError, needs_input, in_review, completed, Role, ApprovalStatus, SourceKind, approver, Actor,
  is_approver, pending, ApprovalRequest, Board, synthetic, source_kind, is_synthetic, transition,
}
use civic_loop.Prelude.Result.{is_ok, Result, err, ok}
use civic_loop.Prelude.{
  str_eq-false, subst, refl, sym, ==_iff, ◌↔◌, none, if◌then◌else◌, ℕ, String, ◌≡◌, ◌≢◌, ◌⊎◌, inl,
  inr, true, false, some, arith, ◌==◌, str_eq, any,
}

-- What lets a decision on a request be recorded.
abbrev pub Admits : ℕ → Actor → String → String → Board → ApprovalRequest → Type 0
Admits approval_id actor decision submitted_hash b a =
    (b.approval ≡ some a)
    × (a.id ≡ approval_id)
    × (source_kind b.workflow.revision ≡ synthetic)
    × (actor.slug ≢ a.submitter)
    × (actor.role ≡ approver)
    × (a.status ≡ pending)
    × (submitted_hash ≡ a.package_hash)
    × ((decision ≡ "reject")
        ⊎ ((decision ≡ "approve")
            × (any (λ k. str_eq k (append "launchloop:" a.package_hash)) b.other_keys ≡ false)))

closed : (r : Result DemoError Board) → ((b : Board) → r ≢ ok b) → is_ok r ≡ false
closed (ok b) h = elim (h b refl) [ ]
closed (err e) h = refl

-- A decision is final: once one was recorded, every later decision on the workflow's request
-- raises, whoever makes it and whatever it is.
pub decide_approval_once :
    (approval_id other_id : ℕ) (actor other : Actor)
    (decision other_decision submitted_hash other_hash reason other_reason : String) (now later : ℕ)
    (b b' : Board)
    → decide_approval approval_id actor decision submitted_hash reason now b ≡ ok b'
    → is_ok (decide_approval other_id other other_decision other_hash other_reason later b') ≡ false
unfolding approved_board reject transition
decide_approval_once approval_id other_id actor other decision other_decision submitted_hash
      other_hash reason other_reason now later b b' h =
    let (a, e, may, how) =
      decide_approval_ok approval_id actor decision submitted_hash reason now b b' h in
    closed _ (λ b'' h'.
      let (a', e', may', _) =
        decide_approval_ok other_id other other_decision other_hash other_reason later b' b'' h' in
      let (_, _, open_request, _, _) = may_decide_ok a' other other_decision other_hash b' may' in
      elim how [
        | inl eq ↦ ground arith
        | inr done ↦ let eq = approve_ok a actor reason now b b' done in ground arith
      ])

admitted :
    (approval_id : ℕ) (actor : Actor) (decision submitted_hash reason : String) (now : ℕ)
    (b b' : Board)
    → decide_approval approval_id actor decision submitted_hash reason now b ≡ ok b'
    → (a : ApprovalRequest) × (b.approval ≡ some a)
      × (a.id == approval_id ≡ true)
      × (is_synthetic (source_kind b.workflow.revision) ≡ true)
      × (str_eq actor.slug a.submitter ≡ false)
      × (is_approver actor.role ≡ true)
      × (is_pending a.status ≡ true)
      × (str_eq submitted_hash a.package_hash ≡ true)
      × ((str_eq decision "reject" ≡ true)
          ⊎ ((str_eq decision "approve" ≡ true)
              × (any (λ k. str_eq k (append "launchloop:" a.package_hash)) b.other_keys ≡ false)))
unfolding decide_approval may_decide approve create_execution transition
admitted approval_id actor decision submitted_hash reason now b b' h = ground arith

-- What `decide_approval` leaves for each decision that it takes.
abbrev pub decided_board : String → ApprovalRequest → Actor → String → ℕ → Board → Board
decided_board decision a actor reason now b =
    if str_eq decision "reject"
    then reject a actor reason now b
    else approved_board a actor reason now b

pub decision_taken :
    (approval_id : ℕ) (actor : Actor) (decision submitted_hash reason : String) (now : ℕ)
    (b : Board) (a : ApprovalRequest)
    → b.execution ≡ none
    → (b.approval ≡ some a)
    → (a.id == approval_id ≡ true)
    → (is_synthetic (source_kind b.workflow.revision) ≡ true)
    → (str_eq actor.slug a.submitter ≡ false)
    → (is_approver actor.role ≡ true)
    → (is_pending a.status ≡ true)
    → (str_eq submitted_hash a.package_hash ≡ true)
    → ((str_eq decision "reject" ≡ true)
        ⊎ ((str_eq decision "approve" ≡ true)
            × (str_eq decision "reject" ≡ false)
            × (any (λ k. str_eq k (append "launchloop:" a.package_hash)) b.other_keys ≡ false)))
    → decide_approval approval_id actor decision submitted_hash reason now b
      ≡ ok (decided_board decision a actor reason now b)
unfolding decide_approval may_decide approve create_execution transition approved_board
decision_taken approval_id actor decision submitted_hash reason now b a x e i s o r p q d =
    ground arith

is_synthetic_lem : (k : SourceKind) → is_synthetic k ≡ true → k ≡ synthetic
is_synthetic_lem k h = ground arith

is_approver_lem : (r : Role) → is_approver r ≡ true → r ≡ approver
is_approver_lem r h = ground arith

is_pending_lem : (s : ApprovalStatus) → is_pending s ≡ true → s ≡ pending
is_pending_lem s h = ground arith

decided_status :
    (decision : String) (a : ApprovalRequest) (actor : Actor) (reason : String) (now : ℕ)
    (b : Board)
    → (decided_board decision a actor reason now b).workflow.status
      ≡ (if str_eq decision "reject" then needs_input else completed)
unfolding reject transition approved_board
decided_status decision a actor reason now b = ground arith

not_reject : (decision : String) → decision ≡ "approve" → str_eq decision "reject" ≡ false
not_reject decision h = subst (λ d. str_eq d "reject" ≡ false) (sym h) refl

-- On a consistent board, a decision is recorded exactly when: a request with that identifier is
-- pending on a synthetic revision, the actor is an approver other than the submitter, the
-- submitted hash is the request's, and the decision is to reject, or to approve with a connector
-- key that no other workflow uses. The workflow then needs input again, or is completed.
pub decide_approval_iff :
    (package_hash : Package → String) (calendar : Calendar) (approval_id : ℕ) (actor : Actor)
    (decision submitted_hash reason : String) (now : ℕ) (b : Board)
    → IsConsistent package_hash calendar b
    → ((b' : Board) × (decide_approval approval_id actor decision submitted_hash reason now b
          ≡ ok b')
        × (b'.workflow.status ≡ (if str_eq decision "reject" then needs_input else completed)))
      ↔ ((a : ApprovalRequest) × Admits approval_id actor decision submitted_hash b a)
decide_approval_iff package_hash calendar approval_id actor decision submitted_hash reason now b k =
    (
      λ (b', h, _).
          let (a, e, i, s, o, r, p, q, d) =
            admitted approval_id actor decision submitted_hash reason now b b' h in
          (
            a,
            (
              e,
              (==_iff _ _).0 i,
              is_synthetic_lem _ s,
              (str_eq-false _ _).1 o,
              is_approver_lem _ r,
              is_pending_lem _ p,
              (eq_iff _ _).0 q,
              elim d [ inl t ↦ inl ((eq_iff _ _).0 t) | inr (t, f) ↦ inr ((eq_iff _ _).0 t, f) ],
            ),
          ),
      λ (a, (e, i, s, o, r, p, q, d)).
          let open_request = subst (λ t. is_pending t ≡ true) (sym p) refl in
          let at = pending-Rows package_hash calendar b a b.workflow.status k.rows e open_request in
          let (_, _, _, _, _, _, x) = Rows-at package_hash calendar b in_review at k in
          (
            decided_board decision a actor reason now b,
            decision_taken approval_id actor decision submitted_hash reason now b a x e
                ((==_iff _ _).1 i) (subst (λ t. is_synthetic t ≡ true) (sym s) refl)
                ((str_eq-false _ _).0 o) (subst (λ t. is_approver t ≡ true) (sym r) refl)
                open_request ((eq_iff _ _).1 q)
                (elim d [
                  | inl t ↦ inl ((eq_iff _ _).1 t)
                  | inr (t, f) ↦ inr ((eq_iff _ _).1 t, not_reject _ t, f)
                ]),
            decided_status decision a actor reason now b,
          ),
    )

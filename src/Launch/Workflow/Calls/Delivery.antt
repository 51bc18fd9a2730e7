-- ===== src/Launch/Workflow/Calls/Delivery.antt =====
-- A draft of backend/launchloop/services.py that two people carry through to its receipt.
use Prim.Native.String.{◌++◌ as append}
use civic_loop.Launch.Workflow.Consistency.Returned.{approved_board}
use civic_loop.Launch.Workflow.Consistency.Kept.{Rows-at}
use civic_loop.Launch.Workflow.Consistency.{IsConsistent}
use civic_loop.Launch.Workflow.Calls.Decision.{decision_taken}
use civic_loop.Launch.{ready_for_review, Package}
use civic_loop.Launch.Workflow.Calls.{
  decide_approval, is_draft, is_ready, package_of, destination, with_package, run_workflow,
  create_approval, new_approval, submit_workflow,
}
use civic_loop.Launch.Workflow.{
  draft, operator, approver, is_approver, ready, completed, granted, ApprovalRequest, DemoError,
  synthetic, Actor, is_operator, in_review, ran, hashed, Board, source_kind, is_synthetic,
  transition,
}
use civic_loop.Launch.Owner.{Calendar}
use civic_loop.Prelude.Result.{Result, ◌>>=◌, ok}
use civic_loop.Prelude.{
  str_eq_refl, str_eq-false, refl, ap, ◌∙◌, ◌≢◌, inr, ==_iff, ==_refl, any, ℕ, String, ◌≡◌, true,
  false, none, some, arith, ◌==◌, str_eq,
}

run_workflow-ok :
    (package_hash : Package → String) (calendar : Calendar) (workflow_id : ℕ) (actor : Actor)
    (b : Board) (p : Package)
    → b.workflow.id == workflow_id ≡ true
    → is_operator actor.role ≡ true
    → is_draft b.workflow.status ≡ true
    → package_of calendar b.workflow.revision ≡ ok p
    → run_workflow package_hash calendar workflow_id actor b
      ≡ ok (
          transition actor
            (destination p.status)
            "launchloop_ran"
            (ran b.workflow.revision.version p.missing_fields)
            (with_package (some p) (package_hash p) b))
unfolding run_workflow
run_workflow-ok package_hash calendar workflow_id actor b p i o d e = ground arith

submit_workflow-ok :
    (approval_id workflow_id : ℕ) (actor : Actor) (b : Board)
    → b.workflow.id == workflow_id ≡ true
    → is_operator actor.role ≡ true
    → is_ready b.workflow.status ≡ true
    → is_synthetic (source_kind b.workflow.revision) ≡ true
    → str_eq b.workflow.package_hash "" ≡ false
    → b.approval ≡ none
    → submit_workflow approval_id workflow_id actor b
      ≡ ok (
          transition actor in_review "package_submitted"
            (hashed b.workflow.package_hash)
            (record b { approval = some (new_approval approval_id actor b.workflow.package_hash) }))
unfolding submit_workflow create_approval
submit_workflow-ok approval_id workflow_id actor b i o d s n a = ground arith

-- The three calls, by an operator and an approver.
abbrev pub carried :
    (Package → String)
    → Calendar
    → ℕ
    → ℕ
    → Actor
    → Actor
    → String
    → String
    → ℕ
    → Board
    → Result DemoError Board
carried package_hash calendar workflow_id approval_id maya jordan submitted_hash reason now b = do
  b1 ← run_workflow package_hash calendar workflow_id maya b
  b2 ← submit_workflow approval_id workflow_id maya b1
  decide_approval approval_id jordan "approve" submitted_hash reason now b2

abbrev pub Delivered : (Package → String) → Package → Actor → Actor → Board → Type 0
Delivered package_hash p maya jordan b =
    (b.workflow.status ≡ completed)
    × (b.workflow.campaign_package ≡ some p)
    × (b.execution
        ≡ some (record {
          idempotency_key = append "launchloop:" (package_hash p);
          audience_count = p.audience.member_count;
        }))
    × ((a : ApprovalRequest) × (b.approval ≡ some a)
        × (a.status ≡ granted)
        × (a.submitter ≡ maya.slug)
        × (a.approver ≡ some jordan.slug)
        × (a.package_hash ≡ package_hash p))

module _ (package_hash : Package → String) (calendar : Calendar) (workflow_id approval_id : ℕ)
    (maya jordan : Actor) (reason : String) (now : ℕ) (p : Package) where
  abbrev run_board : Board → Board
  run_board b =
      transition maya ready "launchloop_ran" (ran b.workflow.revision.version p.missing_fields)
        (with_package (some p) (package_hash p) b)

  abbrev request : ApprovalRequest
  request = new_approval approval_id maya (package_hash p)

  abbrev submitted_board : Board → Board
  submitted_board b =
      transition maya in_review "package_submitted" (hashed (package_hash p))
        (record (run_board b) { approval = some request })

  -- A draft of a consistent board whose package is ready is delivered: an operator runs and submits
  -- it and an approver with another name approves the hash of the package, and all three calls return,
  -- if the revision is synthetic, the hash is not empty, and no other workflow has delivered a package
  -- of that hash.
  pub draft-Delivered :
      (b : Board)
      → b.workflow.id ≡ workflow_id
      → b.workflow.status ≡ draft
      → IsConsistent package_hash calendar b
      → source_kind b.workflow.revision ≡ synthetic
      → package_of calendar b.workflow.revision ≡ ok p
      → p.status ≡ ready_for_review
      → package_hash p ≢ ""
      → maya.role ≡ operator
      → jordan.role ≡ approver
      → jordan.slug ≢ maya.slug
      → any (λ k. str_eq k (append "launchloop:" (package_hash p))) b.other_keys ≡ false
      → (b' : Board) × (carried package_hash calendar workflow_id approval_id maya jordan
            (package_hash p)
            reason
            now
            b
          ≡ ok b')
        × Delivered package_hash p maya jordan b'
  unfolding transition approved_board
  draft-Delivered b i d k s e r n o q other fresh =
      let (_, _, no_request, no_receipt) = Rows-at package_hash calendar b draft d k in
      let same = (==_iff _ _).1 i in
      let is_op : is_operator maya.role ≡ true = ap is_operator o in
      let synth : is_synthetic (source_kind b.workflow.revision) ≡ true = ap is_synthetic s in
      let run_eq : run_workflow package_hash calendar workflow_id maya b ≡ ok (run_board b) =
        run_workflow-ok package_hash calendar workflow_id maya b p same is_op (ap is_draft d) e
        ∙ ap
            (λ t. ok (
              transition maya (destination t) "launchloop_ran"
                (ran b.workflow.revision.version p.missing_fields)
                (with_package (some p) (package_hash p) b)))
            r in
      let submit_eq =
        submit_workflow-ok approval_id workflow_id maya (run_board b) same is_op refl synth
          ((str_eq-false _ _).0 n) no_request in
      let decide_eq =
        decision_taken approval_id jordan "approve" (package_hash p) reason now (submitted_board b)
          request no_receipt refl (==_refl approval_id) synth ((str_eq-false _ _).0 other)
          (ap is_approver q) refl (str_eq_refl (package_hash p)) (inr (refl, refl, fresh)) in
      let last = decide_approval approval_id jordan "approve" (package_hash p) reason now in
      (
        approved_board request jordan reason now (submitted_board b),
        ap (λ m. m >>= λ b1. (submit_workflow approval_id workflow_id maya b1 >>= last)) run_eq
            ∙ ap (λ m. m >>= last) submit_eq
            ∙ decide_eq,
        (refl, refl, refl, (_, refl, refl, refl, refl, refl)),
      )

-- ===== src/Launch/Workflow/Consistency/Returned.antt =====
-- What a call of backend/launchloop/services.py that returns has checked, and what it leaves.
use civic_loop.Prelude.Result.{ok}
use civic_loop.Prelude.{
  ◌⊎◌, ◌||◌, [], ◌∷◌, map, arith, str_eq, if◌then◌else◌, ℕ, String, ◌≡◌, true, false, some, ◌++◌,
}
use Prim.Native.String.{◌++◌ as append}
use civic_loop.Launch.{Snapshot, Package}
use civic_loop.Launch.Owner.{Calendar}
use civic_loop.Launch.Engine.{is_empty}
use civic_loop.Launch.Workflow.{
  Actor, is_operator, is_approver, draft, needs_input, in_review, approved, completed, ran, saved,
  hashed, receipted, granted, ApprovalRequest, Board, transition, is_synthetic, source_kind,
}
use civic_loop.Launch.Workflow.Calls.{
  is_draft, is_needs_input, is_ready, package_of, destination, with_package, run_workflow,
  answered_fields, missing_answers, create_revision, next_revision, at_revision, answer_questions,
  create_approval, new_approval, submit_workflow, create_execution, audience_count, is_pending,
  decide, reject, approve, may_decide, decide_approval,
}

-- A returned run was made on a draft by an operator, on the package of the revision.
pub run_workflow_ok :
    (package_hash : Package → String) (calendar : Calendar) (workflow_id : ℕ) (actor : Actor)
    (b b' : Board)
    → run_workflow package_hash calendar workflow_id actor b ≡ ok b'
    → (p : Package) × (package_of calendar b.workflow.revision ≡ ok p)
      × (is_draft b.workflow.status ≡ true)
      × (is_operator actor.role ≡ true)
      × (b'
          ≡ transition actor
              (destination p.status)
              "launchloop_ran"
              (ran b.workflow.revision.version p.missing_fields)
              (with_package (some p) (package_hash p) b))
unfolding run_workflow
run_workflow_ok package_hash calendar workflow_id actor b b' h = ground arith

pub answer_questions_ok :
    (workflow_id : ℕ) (actor : Actor) (answers : Snapshot) (b b' : Board)
    → answer_questions workflow_id actor answers b ≡ ok b'
    → let r = next_revision actor answers b in
      let missing = missing_answers r.snapshot in
      (is_needs_input b.workflow.status ≡ true)
      × (is_operator actor.role ≡ true)
      × (is_synthetic (source_kind b.workflow.revision) ≡ true)
      × (is_empty (answered_fields answers) ≡ false)
      × (b'
          ≡ transition actor
              (if is_empty missing then draft else needs_input)
              (if is_empty missing then "event_facts_resolved" else "event_facts_saved")
              (saved r.version (map (λ f. f.0) (answered_fields answers)) missing)
              (at_revision r (record b { revisions = b.revisions ++ r ∷ [] })))
unfolding answer_questions create_revision
answer_questions_ok workflow_id actor answers b b' h = ground arith

pub submit_workflow_ok :
    (approval_id workflow_id : ℕ) (actor : Actor) (b b' : Board)
    → submit_workflow approval_id workflow_id actor b ≡ ok b'
    → (is_ready b.workflow.status ≡ true)
      × (is_operator actor.role ≡ true)
      × (b'
          ≡ transition actor in_review "package_submitted"
              (hashed b.workflow.package_hash)
              (record b {
                approval = some (new_approval approval_id actor b.workflow.package_hash);
              }))
unfolding submit_workflow create_approval
submit_workflow_ok approval_id workflow_id actor b b' h = ground arith

-- A returned decision was made on the pending request that the approver saw, by another person.
pub may_decide_ok :
    (a : ApprovalRequest) (actor : Actor) (decision submitted_hash : String) (b : Board)
    → may_decide a actor decision submitted_hash b ≡ ok tt
    → (str_eq actor.slug a.submitter ≡ false)
      × (is_approver actor.role ≡ true)
      × (is_pending a.status ≡ true)
      × (str_eq submitted_hash a.package_hash ≡ true)
      × ((str_eq decision "approve" || str_eq decision "reject") ≡ true)
unfolding may_decide
may_decide_ok a actor decision submitted_hash b h = ground arith

pub decide_approval_ok :
    (approval_id : ℕ) (actor : Actor) (decision submitted_hash reason : String) (now : ℕ)
    (b b' : Board)
    → decide_approval approval_id actor decision submitted_hash reason now b ≡ ok b'
    → (a : ApprovalRequest) × (b.approval ≡ some a)
      × (may_decide a actor decision submitted_hash b ≡ ok tt)
      × ((b' ≡ reject a actor reason now b) ⊎ (approve a actor reason now b ≡ ok b'))
unfolding decide_approval
decide_approval_ok approval_id actor decision submitted_hash reason now b b' h = ground arith

-- What `approve` leaves: the approval granted, the receipt, and the two transitions.
unfoldable pub approved_board : ApprovalRequest → Actor → String → ℕ → Board → Board
approved_board a actor reason now b =
    let moved =
      transition actor approved "package_approved" (hashed a.package_hash)
        (record b { approval = some (decide a actor reason now granted) }) in
    let n = audience_count b.workflow.campaign_package in
    transition actor completed "sandbox_receipt_recorded" (receipted n) (record moved {
      execution =
          some
            (record { idempotency_key = append "launchloop:" a.package_hash; audience_count = n });
    })

pub approve_ok :
    (a : ApprovalRequest) (actor : Actor) (reason : String) (now : ℕ) (b b' : Board)
    → approve a actor reason now b ≡ ok b'
    → b' ≡ approved_board a actor reason now b
unfolding approve create_execution transition approved_board
approve_ok a actor reason now b b' h = ground arith

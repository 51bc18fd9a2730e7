-- ===== src/Launch/Workflow/Consistency/Life.antt =====
-- The life of one workflow of backend/launchloop/services.py: the calls that return, in any order,
-- from a demo reset on, while the other workflows use what keys they like. A call that raises
-- leaves the board as it was, since it runs in a transaction.
use Prim.Native.String.{◌++◌ as append}
use civic_loop.Launch.{ready_for_review, Snapshot, Package}
use civic_loop.Launch.Workflow.Consistency.Kept.{
  run_workflow-IsConsistent, answer_questions-IsConsistent, submit_workflow-IsConsistent,
  reset_demo-IsConsistent,
}
use civic_loop.Launch.Workflow.Consistency.Decided.{decide_approval-IsConsistent}
use civic_loop.Launch.Workflow.Calls.{
  package_of, run_workflow, answer_questions, submit_workflow, decide_approval, reset_demo,
}
use civic_loop.Launch.Owner.{Calendar}
use civic_loop.Launch.Workflow.{
  granted, ApprovalRequest, ConnectorExecution, approved, draft, Actor, Status, needs_input, ready,
  in_review, completed, Board, DemoError,
}
use civic_loop.Launch.Workflow.Consistency.{Rows, IsConsistent}
use civic_loop.Prelude.Result.{of_ok, Result, ok}
use civic_loop.Prelude.{of_some, refl, sym, ap, ◌∙◌, ◌≢◌, some, arith, subst, ℕ, String, ◌≡◌, List}

pub data Call : Type 0 where
  runs : ℕ → Actor → Call
  replies : ℕ → Actor → Snapshot → Call
  submits : ℕ → ℕ → Actor → Call
  decides : ℕ → Actor → String → String → String → ℕ → Call
  resets : ℕ → Call

module _ (package_hash : Package → String) (calendar : Calendar) where
  unfoldable pub perform : Call → Board → Result DemoError Board
  perform (runs workflow_id actor) b = run_workflow package_hash calendar workflow_id actor b
  perform (replies workflow_id actor answers) b = answer_questions workflow_id actor answers b
  perform (submits approval_id workflow_id actor) b =
      submit_workflow approval_id workflow_id actor b
  perform (decides approval_id actor decision submitted_hash reason now) b =
      decide_approval approval_id actor decision submitted_hash reason now b
  perform (resets workflow_id) b = ok (reset_demo workflow_id b)

  pub data Reach : Board → Type 0 where
    seeded : (workflow_id : ℕ) (b : Board) → Reach (reset_demo workflow_id b)
    called : {b b' : Board} (c : Call) → Reach b → perform c b ≡ ok b' → Reach b'
    elsewhere : {b : Board} (keys : List String) → Reach b → Reach (record b { other_keys = keys })

  perform-IsConsistent :
      (c : Call) (b b' : Board)
      → IsConsistent package_hash calendar b
      → perform c b ≡ ok b'
      → IsConsistent package_hash calendar b'
  unfolding perform
  perform-IsConsistent (runs i actor) b b' k h =
      run_workflow-IsConsistent package_hash calendar i actor b b' k h
  perform-IsConsistent (replies i actor answers) b b' k h =
      answer_questions-IsConsistent package_hash calendar i actor answers b b' k h
  perform-IsConsistent (submits j i actor) b b' k h =
      submit_workflow-IsConsistent package_hash calendar j i actor b b' k h
  perform-IsConsistent (decides j actor decision submitted_hash reason now) b b' k h =
      decide_approval-IsConsistent package_hash calendar j actor decision submitted_hash reason now
        b b' k h
  perform-IsConsistent (resets i) b b' k h =
      subst (IsConsistent package_hash calendar) (of_ok h)
        (reset_demo-IsConsistent package_hash calendar i b)

  -- No row of the workflow depends on the keys of the others.
  Rows-elsewhere :
      (keys : List String) (b : Board) (s : Status)
      → Rows package_hash calendar s b
      → Rows package_hash calendar s (record b { other_keys = keys })
  Rows-elsewhere keys b draft k = k
  Rows-elsewhere keys b needs_input k = k
  Rows-elsewhere keys b ready k = k
  Rows-elsewhere keys b in_review k = k
  Rows-elsewhere keys b approved k = elim k [ ]
  Rows-elsewhere keys b completed k = k

  -- Whatever calls return from a reset on, in any order and with any changes of other
  -- workflows, the board is consistent: the rows fit the status (a completed workflow has the
  -- package prepared from its current revision, under its hash, granted by a person other than
  -- the submitter, with one receipt for that hash), the transitions are a path of the diagram,
  -- and no stored revision is later than the current one.
  pub Reach-IsConsistent : (b : Board) → Reach b → IsConsistent package_hash calendar b
  Reach-IsConsistent _ (seeded i b) = reset_demo-IsConsistent package_hash calendar i b
  Reach-IsConsistent _ (called {b} {b'} c r h) =
      perform-IsConsistent c b b' (Reach-IsConsistent b r) h
  Reach-IsConsistent _ (elsewhere {b} keys r) =
      let k = Reach-IsConsistent b r in
      record {
        rows = Rows-elsewhere keys b b.workflow.status k.rows;
        trail = k.trail;
        latest = k.latest;
      }

  -- What a receipt rests on.
  abbrev pub Grounded : Board → ConnectorExecution → Type 0
  Grounded b e =
      (p : Package) × (a : ApprovalRequest) × (decider : String) × (package_of calendar
          b.workflow.revision
        ≡ ok p)
      × (p.status ≡ ready_for_review)
      × (b.workflow.package_hash ≡ package_hash p)
      × (b.approval ≡ some a)
      × (a.status ≡ granted)
      × (a.package_hash ≡ package_hash p)
      × (a.approver ≡ some decider)
      × (decider ≢ a.submitter)
      × (e.idempotency_key ≡ append "launchloop:" (package_hash p))
      × (e.audience_count ≡ p.audience.member_count)

  receipt-Rows :
      (s : Status) (b : Board) (e : ConnectorExecution)
      → Rows package_hash calendar s b
      → b.execution ≡ some e
      → (s ≡ completed) × Grounded b e
  receipt-Rows draft b e (_, _, _, x) h = ground arith
  receipt-Rows needs_input b e (x, _) h = ground arith
  receipt-Rows ready b e (_, _, _, x) h = ground arith
  receipt-Rows in_review b e (_, _, _, _, _, _, x) h = ground arith
  receipt-Rows approved b e k h = elim k [ ]
  receipt-Rows completed b e
        (p, a, decider, (_, stored, from, r), asked, granted_it, sealed, by, other, x) h =
      let same = of_some (sym h ∙ x) in
      (
        refl,
        (
          p,
          a,
          decider,
          from,
          r,
          stored,
          asked,
          granted_it,
          sealed,
          by,
          other,
          ap (λ (r : ConnectorExecution). r.idempotency_key) same,
          ap (λ (r : ConnectorExecution). r.audience_count) same,
        ),
      )

  -- Nothing is delivered without approval: whatever happens from a reset on, a board that has
  -- a receipt is completed, and the receipt is for the package that the current revision
  -- gives, ready for review, with its audience's size, under the hash that a person other than
  -- its submitter granted.
  pub Reach-Grounded :
      (b : Board) (e : ConnectorExecution)
      → Reach b
      → b.execution ≡ some e
      → (b.workflow.status ≡ completed) × Grounded b e
  Reach-Grounded b e r h = receipt-Rows b.workflow.status b e (Reach-IsConsistent b r).rows h

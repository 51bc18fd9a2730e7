-- ===== src/Launch/Workflow/Consistency.antt =====
-- What holds of a board between two calls of backend/launchloop/services.py.
pub mod Returned
pub mod Kept
pub mod Decided
pub mod Life
use civic_loop.Prelude.Result.{ok}
use civic_loop.Prelude.{
  String, ◌≡◌, ◌≢◌, ◌⊎◌, false, Option, none, some, List, [], ◌∷◌, ◌++◌, ltb, any,
}
use Prim.Native.String.{◌++◌ as append}
use civic_loop.Launch.{Package, ready_for_review}
use civic_loop.Launch.Owner.{Calendar}
use civic_loop.Launch.Workflow.{
  Status, draft, needs_input, ready, in_review, approved, completed, EventRevision,
  WorkflowTransition, ApprovalRequest, pending, granted, rejected, Board,
}
use civic_loop.Launch.Workflow.Calls.{package_of}

-- The edges of the workflow's diagram; the first transition comes from no status.
pub data Edge : Option Status → Status → Type 0 where
  created : Edge none draft
  prepared : Edge (some draft) ready
  incomplete : Edge (some draft) needs_input
  resolved : Edge (some needs_input) draft
  still_missing : Edge (some needs_input) needs_input
  submitted : Edge (some ready) in_review
  refused : Edge (some in_review) needs_input
  accepted : Edge (some in_review) approved
  delivered : Edge (some approved) completed

-- The transitions are a path of the diagram from the creation to the status.
pub data Trail : List WorkflowTransition → Option Status → Type 0 where
  start : Trail [] none
  step :
      {ts : List WorkflowTransition} {s : Option Status} (t : WorkflowTransition)
      → Trail ts s
      → t.from_status ≡ s
      → Edge t.from_status t.to_status
      → Trail (ts ++ t ∷ []) (some t.to_status)

module _ (package_hash : Package → String) (calendar : Calendar) where
  -- The stored package is the one prepared from the current revision, ready, under its own hash.
  abbrev pub Prepared : Board → Package → Type 0
  Prepared b p =
      (b.workflow.campaign_package ≡ some p)
      × (b.workflow.package_hash ≡ package_hash p)
      × (package_of calendar b.workflow.revision ≡ ok p)
      × (p.status ≡ ready_for_review)

  -- What the other rows are at each status. No call leaves a workflow approved.
  abbrev pub Rows : Status → Board → Type 0
  Rows draft b =
      (b.workflow.campaign_package ≡ none)
      × (b.workflow.package_hash ≡ "")
      × (b.approval ≡ none)
      × (b.execution ≡ none)
  Rows needs_input b =
      (b.execution ≡ none)
      × ((b.approval ≡ none)
          ⊎ ((a : ApprovalRequest) × (b.approval ≡ some a) × (a.status ≡ rejected)))
  Rows ready b = (p : Package) × Prepared b p × (b.approval ≡ none) × (b.execution ≡ none)
  Rows in_review b =
      (p : Package) × (a : ApprovalRequest) × Prepared b p
      × (b.approval ≡ some a)
      × (a.status ≡ pending)
      × (a.package_hash ≡ package_hash p)
      × (b.execution ≡ none)
  Rows approved b = ⊥
  Rows completed b =
      (p : Package) × (a : ApprovalRequest) × (decider : String) × Prepared b p
      × (b.approval ≡ some a)
      × (a.status ≡ granted)
      × (a.package_hash ≡ package_hash p)
      × (a.approver ≡ some decider)
      × (decider ≢ a.submitter)
      × (b.execution
          ≡ some (record {
            idempotency_key = append "launchloop:" (package_hash p);
            audience_count = p.audience.member_count;
          }))

  pub record IsConsistent (b : Board) : Type 0 where
    pub rows : Rows b.workflow.status b
    pub trail : Trail b.transitions (some b.workflow.status)
    pub latest :
        any (λ (q : EventRevision). ltb b.workflow.revision.version q.version) b.revisions ≡ false

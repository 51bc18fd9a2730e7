-- ===== src/Launch/Workflow/Consistency/Kept.antt =====
-- Every call of backend/launchloop/services.py that returns keeps the board consistent.
use civic_loop.Prelude.Result.{ok}
use civic_loop.Prelude.{
  ◌+◌, List, ltb, any, subst, sym, inl, [], ◌∷◌, arith, if◌then◌else◌, ℕ, String, ◌≡◌, refl, Bool,
  true, false, some, ◌++◌,
}
use civic_loop.Launch.{Snapshot, Package, PackageStatus, ready_for_review, blocked}
use civic_loop.Launch.Owner.{Calendar}
use civic_loop.Launch.Engine.{is_empty}
use civic_loop.Launch.Workflow.{
  Actor, EventRevision, Status, draft, needs_input, in_review, ready, Details, Board, transition,
}
use civic_loop.Launch.Workflow.Calls.{
  is_draft, is_needs_input, is_ready, package_of, destination, with_package, run_workflow,
  missing_answers, next_revision, at_revision, answer_questions, new_approval, submit_workflow,
  reset_demo,
}
use civic_loop.Launch.Workflow.Consistency.{
  Edge, created, prepared, incomplete, resolved, still_missing, submitted, Trail, start, step, Rows,
  IsConsistent,
}
use civic_loop.Launch.Workflow.Consistency.Returned.{
  run_workflow_ok, answer_questions_ok, submit_workflow_ok,
}

pub Trail-transition :
    (actor : Actor) (to_status : Status) (action : String) (details : Details) (b : Board)
    → Trail b.transitions (some b.workflow.status)
    → Edge (some b.workflow.status) to_status
    → Trail (transition actor to_status action details b).transitions (some to_status)
unfolding transition
Trail-transition actor to_status action details b trail edge = step _ trail refl edge

module _ (package_hash : Package → String) (calendar : Calendar) where
  ran-Edge : (s : PackageStatus) → Edge (some draft) (destination s)
  ran-Edge ready_for_review = prepared
  ran-Edge PackageStatus.needs_input = incomplete
  ran-Edge blocked = incomplete

pub is_draft_lem : (s : Status) → is_draft s ≡ true → s ≡ draft
is_draft_lem s h = ground arith

pub is_needs_input_lem : (s : Status) → is_needs_input s ≡ true → s ≡ needs_input
is_needs_input_lem s h = ground arith

pub is_ready_lem : (s : Status) → is_ready s ≡ true → s ≡ ready
is_ready_lem s h = ground arith

-- The revision that a version follows is the latest once it is stored.
newest :
    (v : ℕ) (r : EventRevision) (rs : List EventRevision)
    → r.version ≡ v + 1
    → any (λ (q : EventRevision). ltb v q.version) rs ≡ false
    → any (λ (q : EventRevision). ltb r.version q.version) (rs ++ r ∷ []) ≡ false
newest v r [] e h = ground arith
newest v r (q ∷ rs) e h = ground (arith, newest v r rs e)

module _ (package_hash : Package → String) (calendar : Calendar) where
  -- The rows at a status that is known only up to an equation.
  pub Rows-at :
      (b : Board) (s : Status)
      → b.workflow.status ≡ s
      → IsConsistent package_hash calendar b
      → Rows package_hash calendar s b
  Rows-at b s h c = subst (λ t. Rows package_hash calendar t b) h c.rows

  pub Edge-at :
      (b : Board) (s : Status)
      → b.workflow.status ≡ s
      → {t : Status} → Edge (some s) t
      → Edge (some b.workflow.status) t
  Edge-at b s h {t} edge = subst (λ u. Edge (some u) t) (sym h) edge

  ran-Rows :
      (actor : Actor) (action : String) (details : Details) (b : Board) (p : Package)
      (s : PackageStatus)
      → p.status ≡ s
      → package_of calendar b.workflow.revision ≡ ok p
      → Rows package_hash calendar draft b
      → Rows package_hash calendar (destination s) (
          transition actor
            (destination s)
            action
            details
            (with_package (some p) (package_hash p) b))
  unfolding transition
  ran-Rows actor action details b p ready_for_review h e (_, _, a, x) =
      (p, (refl, refl, e, h), a, x)
  ran-Rows actor action details b p PackageStatus.needs_input h e (_, _, a, x) = (x, inl a)
  ran-Rows actor action details b p blocked h e (_, _, a, x) = (x, inl a)

  pub run_workflow-IsConsistent :
      (workflow_id : ℕ) (actor : Actor) (b b' : Board)
      → IsConsistent package_hash calendar b
      → run_workflow package_hash calendar workflow_id actor b ≡ ok b'
      → IsConsistent package_hash calendar b'
  unfolding transition
  run_workflow-IsConsistent workflow_id actor b b' c h =
      let (p, e, d, _, eq) = run_workflow_ok package_hash calendar workflow_id actor b b' h in
      let at = is_draft_lem _ d in
      subst (IsConsistent package_hash calendar) (sym eq) (record {
        rows = ran-Rows actor _ _ b p p.status refl e (Rows-at b draft at c);
        trail =
            Trail-transition actor (destination p.status) _ _
              (with_package (some p) (package_hash p) b) c.trail
              (Edge-at b draft at (ran-Edge package_hash calendar p.status));
        latest = c.latest;
      })

  answered-Rows :
      (actor : Actor) (action : String) (details : Details) (r : EventRevision) (b : Board)
      (m : Bool)
      → Rows package_hash calendar
          (if m then draft else needs_input)
          (transition actor (if m then draft else needs_input) action details (at_revision r b))
  unfolding transition
  answered-Rows actor action details r b true = (refl, refl, refl, refl)
  answered-Rows actor action details r b false = (refl, inl refl)

  answered-Edge : (m : Bool) → Edge (some needs_input) (if m then draft else needs_input)
  answered-Edge true = resolved
  answered-Edge false = still_missing

  pub answer_questions-IsConsistent :
      (workflow_id : ℕ) (actor : Actor) (answers : Snapshot) (b b' : Board)
      → IsConsistent package_hash calendar b
      → answer_questions workflow_id actor answers b ≡ ok b'
      → IsConsistent package_hash calendar b'
  unfolding transition
  answer_questions-IsConsistent workflow_id actor answers b b' c h =
      let (d, _, _, _, eq) = answer_questions_ok workflow_id actor answers b b' h in
      let r = next_revision actor answers b in
      let m = is_empty (missing_answers r.snapshot) in
      let stored = record b { revisions = b.revisions ++ r ∷ [] } in
      subst (IsConsistent package_hash calendar) (sym eq) (record {
        rows = answered-Rows actor _ _ r stored m;
        trail =
            Trail-transition actor (if m then draft else needs_input) _ _ (at_revision r stored)
              c.trail (Edge-at b needs_input (is_needs_input_lem _ d) (answered-Edge m));
        latest = newest b.workflow.revision.version r b.revisions refl c.latest;
      })

  pub submit_workflow-IsConsistent :
      (approval_id workflow_id : ℕ) (actor : Actor) (b b' : Board)
      → IsConsistent package_hash calendar b
      → submit_workflow approval_id workflow_id actor b ≡ ok b'
      → IsConsistent package_hash calendar b'
  unfolding transition
  submit_workflow-IsConsistent approval_id workflow_id actor b b' c h =
      let (d, _, eq) = submit_workflow_ok approval_id workflow_id actor b b' h in
      let at = is_ready_lem _ d in
      let (p, at_hash, _, x) = Rows-at b ready at c in
      subst (IsConsistent package_hash calendar) (sym eq) (record {
        rows = (
          p,
          new_approval approval_id actor b.workflow.package_hash,
          at_hash,
          refl,
          refl,
          at_hash.1,
          x,
        );
        trail =
            Trail-transition actor in_review _ _
              (record b {
                approval = some (new_approval approval_id actor b.workflow.package_hash);
              })
              c.trail (Edge-at b ready at submitted);
        latest = c.latest;
      })

  pub reset_demo-IsConsistent :
      (workflow_id : ℕ) (b : Board) → IsConsistent package_hash calendar (reset_demo workflow_id b)
  unfolding reset_demo
  reset_demo-IsConsistent workflow_id b = record {
    rows = (refl, refl, refl, refl);
    trail = step _ start refl created;
    latest = refl;
  }

-- ===== src/Launch/Workflow/Consistency/Decided.antt =====
-- Every decision of backend/launchloop/services.py that returns keeps the board consistent.
use civic_loop.Prelude.Result.{ok}
use civic_loop.Prelude.{
  ap, ◌∙◌, inr, none, subst, sym, inl, arith, str_eq, ℕ, String, ◌≡◌, refl, true, false, some,
}
use civic_loop.Launch.{Package}
use civic_loop.Launch.Owner.{Calendar}
use civic_loop.Launch.Workflow.{
  Actor, Status, draft, needs_input, in_review, ready, approved, completed, hashed, granted,
  rejected, ApprovalRequest, Board, transition,
}
use civic_loop.Launch.Workflow.Calls.{
  with_package, audience_count, is_pending, decide, reject, decide_approval,
}
use civic_loop.Launch.Workflow.Consistency.{refused, accepted, delivered, Rows, IsConsistent}
use civic_loop.Launch.Workflow.Consistency.Returned.{
  may_decide_ok, decide_approval_ok, approved_board, approve_ok,
}
use package.text.Mathlib.TextEquality.{eq_iff}
use civic_loop.Launch.Workflow.Consistency.Kept.{Trail-transition, Rows-at, Edge-at}

module _ (package_hash : Package → String) (calendar : Calendar) where
  -- A request that is pending belongs to a workflow in review.
  pub pending-Rows :
      (b : Board) (a : ApprovalRequest) (s : Status)
      → Rows package_hash calendar s b
      → b.approval ≡ some a
      → is_pending a.status ≡ true
      → s ≡ in_review
  pending-Rows b a draft rows e h = ground arith
  pending-Rows b a needs_input rows e h = ground arith
  pending-Rows b a ready rows e h = ground arith
  pending-Rows b a in_review rows e h = refl
  pending-Rows b a approved rows e h = elim rows [ ]
  pending-Rows b a completed rows e h = ground arith

  reject-IsConsistent :
      (a : ApprovalRequest) (actor : Actor) (reason : String) (now : ℕ) (b : Board)
      → IsConsistent package_hash calendar b
      → b.workflow.status ≡ in_review
      → IsConsistent package_hash calendar (reject a actor reason now b)
  unfolding reject transition
  reject-IsConsistent a actor reason now b c at =
      let (p, q, _, _, _, _, x) = Rows-at package_hash calendar b in_review at c in
      record {
        rows = (x, inr (decide a actor reason now rejected, refl, refl));
        trail =
            Trail-transition actor needs_input _ _
              (with_package none ""
                (record b { approval = some (decide a actor reason now rejected) }))
              c.trail (Edge-at package_hash calendar b in_review at refused);
        latest = c.latest;
      }

  approve-IsConsistent :
      (a : ApprovalRequest) (actor : Actor) (reason : String) (now : ℕ) (b : Board)
      → IsConsistent package_hash calendar b
      → b.workflow.status ≡ in_review
      → b.approval ≡ some a
      → str_eq actor.slug a.submitter ≡ false
      → IsConsistent package_hash calendar (approved_board a actor reason now b)
  unfolding transition approved_board
  approve-IsConsistent a actor reason now b c at e other =
      let (p, q, (stored, hash_eq, from, is_ready_package), same, _, sealed, x) =
        Rows-at package_hash calendar b in_review at c in
      let a_is_q : a ≡ q = cc in
      let sealed' : a.package_hash ≡ package_hash p =
        ap (λ (r : ApprovalRequest). r.package_hash) a_is_q ∙ sealed in
      let count : audience_count b.workflow.campaign_package ≡ p.audience.member_count =
        ap audience_count stored in
      let moved =
        transition actor approved "package_approved" (hashed a.package_hash)
          (record b { approval = some (decide a actor reason now granted) }) in
      record {
        rows = (
          p,
          decide a actor reason now granted,
          actor.slug,
          (stored, hash_eq, from, is_ready_package),
          refl,
          refl,
          sealed',
          refl,
          (λ h. ground (arith, (eq_iff actor.slug a.submitter).1 h)),
          cc,
        );
        trail =
            Trail-transition actor completed _ _ moved
              (Trail-transition actor approved _ _
                (record b { approval = some (decide a actor reason now granted) }) c.trail
                (Edge-at package_hash calendar b in_review at accepted))
              delivered;
        latest = c.latest;
      }

  pub decide_approval-IsConsistent :
      (approval_id : ℕ) (actor : Actor) (decision submitted_hash reason : String) (now : ℕ)
      (b b' : Board)
      → IsConsistent package_hash calendar b
      → decide_approval approval_id actor decision submitted_hash reason now b ≡ ok b'
      → IsConsistent package_hash calendar b'
  decide_approval-IsConsistent approval_id actor decision submitted_hash reason now b b' c h =
      let (a, e, may, how) =
        decide_approval_ok approval_id actor decision submitted_hash reason now b b' h in
      let (other, _, open_request, _, _) = may_decide_ok a actor decision submitted_hash b may in
      let at = pending-Rows b a b.workflow.status c.rows e open_request in
      elim how [
        | inl eq ↦
            subst (IsConsistent package_hash calendar) (sym eq)
              (reject-IsConsistent a actor reason now b c at)
        | inr done ↦
            subst (IsConsistent package_hash calendar)
              (sym (approve_ok a actor reason now b b' done))
              (approve-IsConsistent a actor reason now b c at e other)
      ]

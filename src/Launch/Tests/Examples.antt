-- ===== src/Launch/Tests/Examples.antt =====
-- The theorems on backend/launchloop at the demo event and at an owner's event.
use civic_loop.Launch.{ready_for_review, blocked, lane_blocked, Package}
use civic_loop.Launch.Workflow.Calls.Delivery.{carried, Delivered, draft-Delivered}
use Prim.Native.String.{◌++◌ as append}
use civic_loop.Launch.Workflow.Consistency.Life.{Reach-IsConsistent, Grounded, Reach-Grounded}
use civic_loop.Launch.Workflow.Consistency.{IsConsistent}
use civic_loop.Launch.Workflow.Calls.Decision.{Admits, decide_approval_once, decide_approval_iff}
use civic_loop.Launch.Workflow.Calls.Answers.{Answered, answer_questions-Effect}
use civic_loop.Launch.Workflow.Calls.{
  package_of, run_workflow, answered_fields, update, missing_answers, create_revision,
  answer_questions, create_approval, submit_workflow, create_execution, approve, may_decide,
  decide_approval, reset_demo,
}
use civic_loop.Launch.Text.{decimal, show, lower, strip, ends_in}
use civic_loop.Launch.Tests.{
  Reach-answered, hash, calendar, maya, jordan, answers, asked, answered, submitted_board,
  completed_board, demo_run, Reach-submitted, Reach-completed,
}
use civic_loop.Launch.Workflow.{
  DemoError, synthetic, draft, needs_input, completed, ApprovalRequest, ConnectorExecution, Board,
  source_kind, transition,
}
use civic_loop.Launch.Engine.{
  clarification, audience_for, discount_for, or_else, missing_fields, sponsor_passed, sponsor_price,
  package_status, prepare_package,
}
use civic_loop.Prelude.Result.{Result, err, is_ok, ok}
use civic_loop.Prelude.{
  str_eq-false, none, [], any, ◌≡◌, refl, ◌↔◌, false, some, str_eq, if◌then◌else◌,
}
use civic_loop.Launch.Engine

Reach-IsConsistent_example : IsConsistent hash calendar completed_board
Reach-IsConsistent_example = Reach-IsConsistent hash calendar completed_board Reach-completed

abbrev receipt : ConnectorExecution
receipt = record {
  idempotency_key = append "launchloop:" submitted_board.workflow.package_hash;
  audience_count = 418;
}

has_receipt : completed_board.execution ≡ some receipt
unfolding run_workflow package_of source_kind prepare_package missing_fields Engine.draft reset_demo
    sponsor_price sponsor_passed discount_for audience_for package_status lower show decimal
    transition answer_questions answered_fields update missing_answers create_revision strip or_else
    ends_in submit_workflow create_approval decide_approval may_decide approve create_execution
has_receipt = refl

Reach-Grounded_example :
    (completed_board.workflow.status ≡ completed) × Grounded hash calendar completed_board receipt
Reach-Grounded_example =
    Reach-Grounded hash calendar completed_board receipt Reach-completed has_receipt

decide_approval_iff_example :
    ((b' : Board) × (decide_approval 5 jordan "approve" submitted_board.workflow.package_hash "fine"
          9 submitted_board
        ≡ ok b')
      × (b'.workflow.status ≡ (if str_eq "approve" "reject" then needs_input else completed)))
    ↔ ((a : ApprovalRequest) × Admits 5 jordan "approve" submitted_board.workflow.package_hash
          submitted_board a)
decide_approval_iff_example =
    decide_approval_iff hash calendar 5 jordan "approve" submitted_board.workflow.package_hash
      "fine" 9 submitted_board (Reach-IsConsistent hash calendar submitted_board Reach-submitted)

decide_approval_once_example :
    is_ok (
      decide_approval 5 jordan "reject" submitted_board.workflow.package_hash "late" 10
        completed_board)
    ≡ false
decide_approval_once_example =
    decide_approval_once 5 5 jordan jordan "approve" "reject" submitted_board.workflow.package_hash
      submitted_board.workflow.package_hash "fine" "late" 9 10 submitted_board completed_board
      demo_run.4

answer_questions-Effect_example : Answered answers asked answered
answer_questions-Effect_example = answer_questions-Effect 1 maya answers asked answered demo_run.1

abbrev package_or : Package → Result DemoError Package → Package
package_or p (ok q) = q
package_or p (err _) = p

abbrev no_package : Package
no_package = record {
  schema_id = none;
  status = blocked;
  missing_fields = [];
  questions = [];
  assets = record {
    invitation = record { subject = ""; body = "" };
    reminder = record { subject = ""; body = "" };
    social = "";
  };
  audience = clarification;
  sponsor = record {
    passed = false;
    tier = "";
    expected_discount_percent = none;
    actual_discount_percent = none;
    general_ticket_price = none;
    sponsor_ticket_price = none;
  };
  event_readiness = record { label = ""; status = lane_blocked; summary = "" };
  campaign_composer = record { label = ""; status = lane_blocked; summary = "" };
  audience_policy = record { label = ""; status = lane_blocked; summary = "" };
  evidence = [];
}

abbrev campaign : Package
campaign = package_or no_package (package_of calendar answered.workflow.revision)

campaign_ready :
    (answered.workflow.id ≡ 1)
    × (answered.workflow.status ≡ draft)
    × (source_kind answered.workflow.revision ≡ synthetic)
    × (package_of calendar answered.workflow.revision ≡ ok campaign)
    × (campaign.status ≡ ready_for_review)
    × (str_eq (hash campaign) "" ≡ false)
    × (any (λ k. str_eq k (append "launchloop:" (hash campaign))) answered.other_keys ≡ false)
unfolding run_workflow package_of source_kind prepare_package missing_fields Engine.draft reset_demo
    sponsor_price sponsor_passed discount_for audience_for package_status lower show decimal
    transition answer_questions answered_fields update missing_answers create_revision strip or_else
    ends_in
campaign_ready = (refl, refl, refl, refl, refl, refl, refl)

draft-Delivered_example :
    (b' : Board) × (carried hash calendar 1 5 maya jordan (hash campaign) "fine" 9 answered ≡ ok b')
    × Delivered hash campaign maya jordan b'
draft-Delivered_example =
    draft-Delivered hash calendar 1 5 maya jordan "fine" 9 campaign answered campaign_ready.0
      campaign_ready.1 (Reach-IsConsistent hash calendar answered Reach-answered) campaign_ready.2
      campaign_ready.3 campaign_ready.4 ((str_eq-false _ _).1 campaign_ready.5) refl refl
      ((str_eq-false "jordan" "maya").1 refl) campaign_ready.6

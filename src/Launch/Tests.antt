-- ===== src/Launch/Tests.antt =====
-- Runs of the workflow of backend/launchloop on the demo event, and the theorems at such inputs.
mod Examples
mod Events
use civic_loop.Launch.Workflow.Consistency.Life.{
  runs, replies, submits, decides, perform, Reach, seeded, called, Reach-IsConsistent,
}
use civic_loop.Launch.Workflow.Consistency.{IsConsistent}
use civic_loop.Launch.Engine
use Prim.Native.String.{◌++◌ as append}
use civic_loop.Launch.{text, Snapshot, Package}
use civic_loop.Launch.Workflow.Calls.{
  create_approval, create_execution, approve, may_decide, decide_approval, answered_fields, update,
  missing_answers, create_revision, answer_questions, submit_workflow, package_of, run_workflow,
  first_revision, reset_demo,
}
use civic_loop.Launch.Text.{strip, ends_in, decimal, show, lower}
use civic_loop.Launch.Owner.{Calendar}
use civic_loop.Launch.Workflow.{
  ready, in_review, completed, needs_input, DemoError, draft, operator, approver, Actor, Board,
  source_kind, transition,
}
use civic_loop.Launch.Engine.{
  or_else, audience_for, discount_for, missing_fields, sponsor_passed, sponsor_price,
  package_status, prepare_package,
}
use civic_loop.Prelude.Result.{Result, ok, err, is_ok}
use civic_loop.Prelude.{
  ◌++◌, String, ◌≡◌, refl, true, false, none, some, [], ◌∷◌, str_eq, if◌then◌else◌,
}

-- A hash for the tests, and a calendar that accepts what it is given and orders times by length.
abbrev pub hash : Package → String
hash p = append "sha256:" p.assets.social

abbrev pub calendar : Calendar
calendar = record {
  iso_date = λ s. some s;
  zone = λ s. true;
  clock = λ s. some s;
  split_url =
      λ s. record { scheme = "https"; has_host = true; has_username = false; has_password = false };
  resolve = λ day zone clock. some (record {
    unfolded = true;
    instant = if str_eq clock "09:00" then 9 else 12;
    round_trips = true;
  });
}

abbrev pub maya : Actor
maya = record { slug = "maya"; role = operator }

abbrev pub jordan : Actor
jordan = record { slug = "jordan"; role = approver }

abbrev pub nothing : Board
nothing = record {
  workflow = record {
    id = 0;
    revision = first_revision;
    status = draft;
    campaign_package = none;
    package_hash = "";
  };
  revisions = [];
  approval = none;
  execution = none;
  transitions = [];
  audits = [];
  other_keys = [];
}

-- The demo after its reset.
abbrev pub demo : Board
demo = reset_demo 1 nothing

abbrev pub answers : Snapshot
answers =
    ("venue_name", text " Civic Hall ")
    ∷ ("venue_address", text "124 E 14th St")
    ∷ ("access_instructions", text "Ring the bell.")
    ∷ []

abbrev got : Board → Result DemoError Board → Board
got b (ok b') = b'
got b (err _) = b

abbrev pub asked : Board
asked = got demo (run_workflow hash calendar 1 maya demo)

abbrev pub answered : Board
answered = got asked (answer_questions 1 maya answers asked)

abbrev pub prepared_board : Board
prepared_board = got answered (run_workflow hash calendar 1 maya answered)

abbrev pub submitted_board : Board
submitted_board = got prepared_board (submit_workflow 5 1 maya prepared_board)

abbrev pub completed_board : Board
completed_board = got submitted_board (
    decide_approval 5 jordan "approve" submitted_board.workflow.package_hash "fine" 9
      submitted_board)

-- The seeded event has no venue, so that the first run asks for it; the second, after the
-- answers, is ready.
pub demo_run :
    (run_workflow hash calendar 1 maya demo ≡ ok asked)
    × (answer_questions 1 maya answers asked ≡ ok answered)
    × (run_workflow hash calendar 1 maya answered ≡ ok prepared_board)
    × (submit_workflow 5 1 maya prepared_board ≡ ok submitted_board)
    × (decide_approval 5 jordan "approve" submitted_board.workflow.package_hash "fine" 9
          submitted_board
        ≡ ok completed_board)
unfolding run_workflow package_of source_kind prepare_package missing_fields Engine.draft reset_demo
    sponsor_price sponsor_passed discount_for audience_for package_status lower show decimal
    transition answer_questions answered_fields update missing_answers create_revision strip or_else
    ends_in submit_workflow create_approval decide_approval may_decide approve create_execution
demo_run = (refl, refl, refl, refl, refl)

demo_statuses :
    (asked.workflow.status ≡ needs_input)
    × (answered.workflow.status ≡ draft)
    × (prepared_board.workflow.status ≡ ready)
    × (submitted_board.workflow.status ≡ in_review)
    × (completed_board.workflow.status ≡ completed)
unfolding run_workflow package_of source_kind prepare_package missing_fields Engine.draft reset_demo
    sponsor_price sponsor_passed discount_for audience_for package_status lower show decimal
    transition answer_questions answered_fields update missing_answers create_revision strip or_else
    ends_in submit_workflow create_approval decide_approval may_decide approve create_execution
demo_statuses = (refl, refl, refl, refl, refl)

pub Reach-asked : Reach hash calendar asked
unfolding perform
Reach-asked = called (runs 1 maya) (seeded 1 nothing) demo_run.0

pub Reach-answered : Reach hash calendar answered
unfolding perform
Reach-answered = called (replies 1 maya answers) Reach-asked demo_run.1

pub Reach-submitted : Reach hash calendar submitted_board
unfolding perform
Reach-submitted =
    called (submits 5 1 maya) (called (runs 1 maya) Reach-answered demo_run.2) demo_run.3

pub Reach-completed : Reach hash calendar completed_board
unfolding perform
Reach-completed =
    called (decides 5 jordan "approve" submitted_board.workflow.package_hash "fine" 9)
      Reach-submitted demo_run.4

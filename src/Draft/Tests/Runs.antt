-- ===== src/Draft/Tests/Runs.antt =====
-- The theorems on drafts at the draft of the tests.
use civic_loop.Prelude.Result.{ok}
use civic_loop.Prelude.Table.{find}
use civic_loop.Prelude.{◌≡◌, ◌≤◌, refl, String, true, false, none, some, List, [], ◌∷◌}
use civic_loop.Draft.{draft, Session, Execution, Store, approved, executing, unknown}
use civic_loop.Draft.Acceptance.{session_of}
use civic_loop.Draft.Rows.{key, rows, valid, action_valid, ended}
use civic_loop.Draft.Dispatch.{Worker, receipt, failure, finish}
use civic_loop.Draft.Claim.{claimed}
use civic_loop.Draft.Outcome.{finish-loss}
use civic_loop.Draft.Authority.{Current, claim-Current}
use civic_loop.Draft.System.{
  State, initial, Step, Reach, start, then_step, submits, approves, claims, sends, finishes, calls,
}
use civic_loop.Draft.System.Spec.{status_at}
use civic_loop.Draft.System.Once.{requested_once}
use civic_loop.Draft.System.Kept.{Confirmed}
use civic_loop.Draft.System.Review.{Unchanged, Step-Unchanged, Reach-Confirmed}
use civic_loop.Draft.Tests.{
  contracts, world, submitter, owner, submission, submitted_row, approved_row, executing_row,
  succeeded_row, with_row, worker, confirmed, submitted, approval, claim_given, ready_to_send,
  receipt_stored,
}

abbrev holding : Execution → List Worker → List Worker → List Worker → State
holding x ready waiting requests = record {
  store = with_row x;
  ready = ready;
  waiting = waiting;
  requests = requests;
}

no_drafts : find key 11 [] ≡ none
unfolding find
no_drafts = refl

submitted-Step : Step contracts initial (holding submitted_row [] [] [])
submitted-Step =
    submits 100 world 11 submitter submission submitted_row initial (with_row submitted_row)
      no_drafts submitted

approved-Step : Step contracts (holding submitted_row [] [] []) (holding approved_row [] [] [])
approved-Step =
    approves 200 world draft owner 5 11 "d" 4 approved_row (holding submitted_row [] [] [])
      (with_row approved_row) approval

claimed-Step :
    Step contracts (holding approved_row [] [] []) (holding executing_row (worker ∷ []) [] [])
claimed-Step =
    claims 300 world draft owner 5 11 worker (holding approved_row [] [] [])
      (with_row executing_row) claim_given

sent-Step :
    Step contracts
      (holding executing_row (worker ∷ []) [] [])
      (holding executing_row [] (worker ∷ []) (worker ∷ []))
sent-Step =
    sends 310 world true worker [] [] (holding executing_row (worker ∷ []) [] []) refl ready_to_send

finished-Step :
    Step contracts
      (holding executing_row [] (worker ∷ []) (worker ∷ []))
      (holding succeeded_row [] [] (worker ∷ []))
finished-Step =
    finishes 400 worker (receipt confirmed) [] []
      (holding executing_row [] (worker ∷ []) (worker ∷ [])) (with_row succeeded_row) refl
      receipt_stored

abbrev pub last_state : State
last_state = holding succeeded_row [] [] (worker ∷ [])

pub reached : Reach contracts last_state
reached =
    then_step _ _
      (then_step _ _
        (then_step _ _ (then_step _ _ (then_step _ _ start submitted-Step) approved-Step)
          claimed-Step)
        sent-Step)
      finished-Step

found : (x : Execution) → x.id ≡ 11 → find key 11 (x ∷ []) ≡ some x
unfolding find
found x h = rw h refl

requested_once_example : calls draft 11 last_state.requests ≤ 1
requested_once_example = requested_once contracts last_state draft 11 reached

Reach-Confirmed_example : Confirmed succeeded_row
Reach-Confirmed_example =
    Reach-Confirmed contracts last_state draft 11 succeeded_row reached (found succeeded_row refl)

Step-Unchanged_example :
    (b : Execution) × (find key 11 (rows draft (with_row executing_row)) ≡ some b)
    × Unchanged approved_row b
Step-Unchanged_example =
    Step-Unchanged contracts (holding approved_row [] [] [])
      (holding executing_row (worker ∷ []) [] []) draft 11 approved_row claimed-Step
      (found approved_row refl)

succeeded-valid : valid succeeded_row ≡ true
unfolding valid action_valid
succeeded-valid = refl

-- The draft that succeeded becomes unknown when a slower call on it fails.
finish-loss_example :
    (category : String) × (t : Store) × (finish 500 worker failure (with_row succeeded_row) ≡ ok t)
    × (find key 11 (rows draft t) ≡ some (ended unknown category 500 succeeded_row))
finish-loss_example =
    finish-loss 500 worker failure (with_row succeeded_row) succeeded_row refl refl
      (found succeeded_row refl) succeeded-valid refl

claim-Current_example :
    (operation : Execution) × (s : Session) × (find key 11 (rows draft (with_row approved_row))
      ≡ some operation)
    × (operation.status ≡ approved)
    × (operation.approver_id ≡ some 2)
    × (session_of owner 5 300 world ≡ ok s)
    × Current contracts 300 world draft [] operation
    × (executing_row ≡ claimed false 300 operation)
    × (status_at draft 11 (with_row executing_row) ≡ some executing)
claim-Current_example =
    claim-Current contracts 300 world false draft owner 5 11 (with_row approved_row) worker
      (with_row executing_row) claim_given

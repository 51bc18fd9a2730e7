-- ===== src/Draft/Authority.antt =====
-- What a claim of backend/integrations/draft_operations.py has established: who approved, who
-- claims, and what was reviewed.
use civic_loop.Draft.Rows.{rows, key}
use civic_loop.Draft.Dispatch.{Worker}
use civic_loop.Draft.System.Submits.{saved-status}
use civic_loop.Draft.System.Spec.{status_at}
use civic_loop.Draft.Validation.{
  approval, caught, checked, eventbrite_review, current_template, validate_template,
  campaign_review, validate_draft, validate_execution,
}
use civic_loop.Draft.Acceptance.{is_id, actor_of, session_of, digest}
use civic_loop.Prelude.Result.{Result, ok, err, of_refuse, of_bind, of_demand}
use civic_loop.Prelude.{
  of_some, ℕ, ◌≡◌, ap, subst, arith, String, Bool, true, not, ◌||◌, Option, none, some, List, ◌==◌,
  str_eq, if◌then◌else◌, ==_iff,
}
use civic_loop.Prelude.Table.{find, key-find}
use civic_loop.Draft.Claim.{claim, claimed}
use civic_loop.Draft.System.Claims.{of_claim, Claimed}
use civic_loop.Draft.{
  invalid_arguments, validation_error, value_error, key_error, type_error, attribute_error,
  integrity_error, provider_error, executing, Error, permission_denied, does_not_exist, Kind, draft,
  template, Execution, Store, approved, User, Intent, Session, World, Contracts, operator,
}

module _ (c : Contracts) (now : ℕ) (w : World) where
  -- The review of an execution as it stands, under `validate_execution`
  abbrev pub review_now :
      Kind → List Execution → Intent → Execution → Result Error (String × String)
  review_now draft templates intent operation =
      if str_eq intent.provider "iterable"
      then campaign_review c now w templates intent operation
      else eventbrite_review c now w intent operation
  review_now template templates intent operation =
      if str_eq intent.provider "iterable"
      then current_template c now w intent operation true
      else eventbrite_review c now w intent operation

  -- The review is the stored one, and the stored approval is by a user whose session is live.
  pub Current : Kind → List Execution → Execution → Type 0
  Current kind templates operation =
      (intent : Intent) × (request : String) × (digest : String) × (find (λ (x : Intent). x.id)
          operation.intent_id w.intents
        ≡ some intent)
      × (review_now kind templates intent operation ≡ ok (request, digest))
      × (str_eq request operation.request_digest ≡ true)
      × (str_eq digest operation.review_digest ≡ true)
      × ((approver_id : ℕ)
          → operation.approver_id ≡ some approver_id
          → (session_id : ℕ) × (approver : User) × (session : Session)
            × (operation.approval_session_id ≡ some session_id)
            × (find (λ (x : User). x.id) approver_id w.users ≡ some approver)
            × (session_of approver session_id now w ≡ ok session))

  of_approval :
      (o : Option ℕ) (operation : Execution) (approver_id : ℕ)
      → approval c now w o operation true ≡ ok tt
      → o ≡ some approver_id
      → (session_id : ℕ) × (approver : User) × (session : Session) × (operation.approval_session_id
          ≡ some session_id)
        × (find (λ (x : User). x.id) approver_id w.users ≡ some approver)
        × (session_of approver session_id now w ≡ ok session)
  of_approval none operation approver_id h e = ground (arith, e)
  of_approval (some a) operation approver_id h e =
      let (session_id, proof, h1) = of_demand operation.approval_session_id permission_denied h in
      let (approver, user, h2) =
        of_demand (find (λ (x : User). x.id) a w.users) does_not_exist h1 in
      let (session, live, _) = of_bind (session_of approver session_id now w) h2 in
      (
        session_id,
        approver,
        session,
        proof,
        subst (λ n. find (λ (x : User). x.id) n w.users ≡ some approver) (of_some e) user,
        live,
      )

  of_checked :
      (kind : Kind) (templates : List Execution) (intent : Intent) (operation : Execution)
      (request digest : String)
      → find (λ (x : Intent). x.id) operation.intent_id w.intents ≡ some intent
      → review_now kind templates intent operation ≡ ok (request, digest)
      → checked c now w operation true (request, digest) ≡ ok tt
      → Current kind templates operation
  unfolding Current
  of_checked kind templates intent operation request digest found reviewed h =
      let (same, h1) =
        of_refuse
          (not (str_eq request operation.request_digest)
            || not (str_eq digest operation.review_digest))
          permission_denied h in
      let (submitter, _, h2) =
        of_demand (find (λ (x : User). x.id) operation.submitter_id w.users) does_not_exist h1 in
      let (actor, _, h3) = of_bind (actor_of submitter operator w) h2 in
      let (accepted, _, h4) =
        of_demand (find (λ (x : Intent). x.id) operation.intent_id w.intents) does_not_exist h3 in
      let (_, h5) = of_refuse (not (actor.id == accepted.actor_id)) permission_denied h4 in
      (
        intent,
        request,
        digest,
        found,
        reviewed,
        ground (arith, same),
        ground (arith, same),
        λ approver_id e. of_approval operation.approver_id operation approver_id h5 e,
      )

  of_caught :
      (r : Result Error (String × String)) {p : String × String} → caught r ≡ ok p → r ≡ ok p
  of_caught (ok a) h = h
  of_caught (err permission_denied) h = ground arith
  of_caught (err does_not_exist) h = ground arith
  of_caught (err invalid_arguments) h = ground arith
  of_caught (err validation_error) h = ground arith
  of_caught (err value_error) h = ground arith
  of_caught (err key_error) h = ground arith
  of_caught (err type_error) h = ground arith
  of_caught (err attribute_error) h = ground arith
  of_caught (err integrity_error) h = ground arith
  of_caught (err (provider_error category)) h = ground arith

  validate_execution-Current :
      (kind : Kind) (templates : List Execution) (operation : Execution)
      → validate_execution c now w kind templates operation true ≡ ok tt
      → Current kind templates operation
  unfolding validate_execution validate_draft validate_template
  validate_execution-Current draft templates operation h =
      let (intent, found, h1) =
        of_demand (find (λ (x : Intent). x.id) operation.intent_id w.intents) does_not_exist h in
      let reviewed = review_now draft templates intent operation in
      let ((request, digest), e, h2) = of_bind (caught reviewed) h1 in
      of_checked draft templates intent operation request digest found (of_caught reviewed e) h2
  validate_execution-Current template templates operation h =
      let (intent, found, h1) =
        of_demand (find (λ (x : Intent). x.id) operation.intent_id w.intents) does_not_exist h in
      let reviewed = review_now template templates intent operation in
      let ((request, digest), e, h2) = of_bind (caught reviewed) h1 in
      of_checked template templates intent operation request digest found (of_caught reviewed e) h2

of_is_id : (o : Option ℕ) (n : ℕ) → is_id o n ≡ true → o ≡ some n
of_is_id none n h = ground arith
of_is_id (some m) n h = ap some ((==_iff m n).0 h)

-- A claim is only given on an operation that was approved and not claimed, to the user who approved
-- it, with a live owner session now and a live session behind the approval; and only if the review,
-- computed again from the intent, the run, the workflow and the payload as they are now, is the one
-- that was submitted. It leaves the operation executing, claimed now.
pub claim-Current :
    (c : Contracts) (now : ℕ) (w : World) (in_atomic_block : Bool) (kind : Kind) (user : User)
    (session_id id : ℕ) (s : Store) (k : Worker) (t : Store)
    → claim c now w in_atomic_block kind user session_id id s ≡ ok (k, t)
    → (operation : Execution) × (session : Session) × (find key id (rows kind s) ≡ some operation)
      × (operation.status ≡ approved)
      × (operation.approver_id ≡ some user.id)
      × (session_of user session_id now w ≡ ok session)
      × Current c now w kind s.templates operation
      × (k.operation ≡ claimed k.is_iterable now operation)
      × (status_at kind id t ≡ some executing)
unfolding Claimed
claim-Current c now w in_atomic_block kind user session_id id s k t h =
    let (operation, session, live, found, status, owner, valid_now, same, (ys, written, e)) =
      of_claim c now w in_atomic_block kind user session_id id s h in
    (
      operation,
      session,
      found,
      status,
      of_is_id operation.approver_id user.id owner,
      live,
      validate_execution-Current c now w kind s.templates operation valid_now,
      ap (λ x. x.operation) same,
      subst (λ n. status_at kind n t ≡ some executing) (key-find key id (rows kind s) found)
          (rw e (saved-status kind (claimed k.is_iterable now operation) s written)),
    )

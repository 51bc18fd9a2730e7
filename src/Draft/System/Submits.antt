-- ===== src/Draft/System/Submits.antt =====
-- What a submission and an approval (backend/integrations/draft_operations.py) do to the statuses.
use civic_loop.Prelude.Result.{Result, ok, of_refuse, of_ok, of_bind}
use civic_loop.Prelude.Table.{find}
use civic_loop.Prelude.{
  sym, ◌⊎◌, inl, inr, ==_refl, ◌∙◌, String, Bool, false, ◌&&◌, if◌then◌else◌, ℕ, ◌≡◌, refl, ap,
  true, not, ◌||◌, Option, none, some, List, ◌==◌, str_eq,
}
use civic_loop.Draft.{
  Json, Error, permission_denied, pending, Execution, Kind, draft, template, Store, User, World,
  Contracts, operator,
}
use civic_loop.Draft.Acceptance.{digest, actor_of}
use civic_loop.Draft.Review.{truthy, review}
use civic_loop.Draft.Rows.{key, rows, with_rows, save_execution}
use civic_loop.Draft.Service.{
  submit_iterable_campaign, is_digest, submit_template, submit_draft, Submission, stored,
  caught_missing, intent_row, run_row, lock_workflow, iterable_review, submit_eventbrite,
  new_iterable_operation, new_execution,
}
use civic_loop.Capability.{first}
use civic_loop.Json.{obj, end}
use civic_loop.Draft.Validation.{caught}
use civic_loop.Draft.System.Spec.{Move, stays, is_move, status_of, status_at}
use civic_loop.Draft.System.Writes.{find-save_execution, save_execution-Move}

-- Every status moves as the machine may.
abbrev pub Moves : Store → Store → Type 0
Moves s t = (kind : Kind) (j : ℕ) → Move (status_at kind j s) (status_at kind j t)

pub with_rows-Moves :
    (kind : Kind) (s : Store) (ys : List Execution)
    → ((j : ℕ) → Move (status_of (find key j (rows kind s))) (status_of (find key j ys)))
    → Moves s (with_rows kind ys s)
with_rows-Moves draft s ys f draft j = f j
with_rows-Moves template s ys f template j = f j
with_rows-Moves draft s ys f template j = stays (status_at template j s)
with_rows-Moves template s ys f draft j = stays (status_at draft j s)

-- A save into the table of a kind
pub save_execution-Moves :
    (kind : Kind) (x : Execution) (s : Store) {ys : List Execution}
    → save_execution x (rows kind s) ≡ ok ys
    → is_move (status_at kind x.id s) (some x.status) ≡ true
    → Moves s (with_rows kind ys s)
save_execution-Moves kind x s {ys} h m =
    with_rows-Moves kind s ys (λ j. save_execution-Move x (rows kind s) j h m)

pub rows-with_rows :
    (kind : Kind) (ys : List Execution) (s : Store) → rows kind (with_rows kind ys s) ≡ ys
rows-with_rows draft ys s = refl
rows-with_rows template ys s = refl

pub saved-status :
    (kind : Kind) (x : Execution) (s : Store) {ys : List Execution}
    → save_execution x (rows kind s) ≡ ok ys
    → status_at kind x.id (with_rows kind ys s) ≡ some x.status
saved-status kind x s {ys} h =
    ap (λ xs. status_of (find key x.id xs)) (rows-with_rows kind ys s)
    ∙ ap status_of (find-save_execution x (rows kind s) x.id h ∙ own)
  where
    own : (if x.id == x.id then some x else find key x.id (rows kind s)) ≡ some x
    own = rw (==_refl x.id) refl

-- What a submission has written: nothing, or a new row with its id that is pending.
abbrev pub Submitted : Kind → ℕ → Store → Store → Type 0
Submitted kind id s t =
    (t ≡ s)
    ⊎ ((x : Execution) × (ys : List Execution) × (save_execution x (rows kind s) ≡ ok ys)
        × (x.id ≡ id)
        × (x.status ≡ pending)
        × (t ≡ with_rows kind ys s))

pub Submitted-Moves :
    (kind : Kind) (id : ℕ) (s t : Store)
    → find key id (rows kind s) ≡ none
    → Submitted kind id s t
    → Moves s t
Submitted-Moves kind id s t absent (inl e) = rw e (λ k j. stays (status_at k j s))
Submitted-Moves kind id s t absent (inr (x, ys, saved, same, e, written)) = rw written (
    save_execution-Moves kind x s saved
      (rw same (rw e (ap (λ o. is_move (status_of o) (some pending)) absent))))

of_pair {ℓ κ} :
    {A : Type ℓ} {B : Type κ} {a a' : A} {b b' : B}
    → ◌≡◌ {A = Result Error (A × B)} (ok (a, b)) (ok (a', b'))
    → b ≡ b'
of_pair h = ap (λ p. p.1) (of_ok h)

stored-Submitted :
    (kind : Kind) (user : User) (operation : Execution) (o : Option Execution) (s : Store)
    {x : Execution} {t : Store}
    → operation.status ≡ pending
    → stored kind user operation o s ≡ ok (x, t)
    → Submitted kind operation.id s t
stored-Submitted kind user operation none s {x} {t} e h =
    let (ys, saved, h1) = of_bind (save_execution operation (rows kind s)) h in
    inr (operation, ys, saved, refl, e, sym (of_pair h1))
stored-Submitted kind user operation (some existing) s {x} {t} e h =
    let (_, h1) =
      of_refuse
        (not (str_eq existing.review_digest operation.review_digest)
          || not (existing.submitter_id == user.id))
        permission_denied h in
    inl (sym (of_pair h1))

abbrev reviewed : Execution → String → String → Execution
reviewed operation request digest = record operation {
  request_digest = request;
  review_digest = digest;
}

module _ (c : Contracts) (now : ℕ) (w : World) where
  pub new_iterable_operation-Submitted :
      (kind : Kind) (id : ℕ) (user : User) (r : Submission) (s : Store) {x : Execution} {t : Store}
      → new_iterable_operation c now w kind id user r s ≡ ok (x, t)
      → Submitted kind id s t
  unfolding new_iterable_operation
  new_iterable_operation-Submitted kind id user r s h =
      let (actor, _, h1) = of_bind (actor_of user operator w) h in
      let (intent, _, h2) = of_bind (intent_row c now w r.intent_id) h1 in
      let (_, _, h3) = of_bind (lock_workflow c now w intent.workflow_id) h2 in
      let (_, h4) =
        of_refuse (not (str_eq intent.provider "iterable") || not (actor.id == intent.actor_id))
          permission_denied h3 in
      let (_, _, h5) = of_bind (run_row c now w r.run_id) h4 in
      let operation = new_execution id user.id r in
      let ((request, digest), _, h6) =
        of_bind (caught_missing (iterable_review c now w kind s.templates intent operation)) h5 in
      stored-Submitted kind user (reviewed operation request digest)
        (first (λ (x : Execution). x.intent_id == r.intent_id) (rows kind s)) s refl h6

  submit_eventbrite-Submitted :
      (id : ℕ) (user : User) (r : Submission) (s : Store) {x : Execution} {t : Store}
      → submit_eventbrite c now w id user r s ≡ ok (x, t)
      → Submitted draft id s t
  submit_eventbrite-Submitted id user r s h =
      let (_, h0) = of_refuse (truthy r.provider_configuration) permission_denied h in
      let (actor, _, h1) = of_bind (actor_of user operator w) h0 in
      let (intent, _, h2) = of_bind (intent_row c now w r.intent_id) h1 in
      let (_, _, h3) = of_bind (lock_workflow c now w intent.workflow_id) h2 in
      let (run, _, h4) = of_bind (run_row c now w r.run_id) h3 in
      let (_, h5) = of_refuse (not (actor.id == intent.actor_id)) permission_denied h4 in
      let (_, h6) =
        of_refuse (str_eq r.action "update" && not (is_digest r.expected_readback_digest))
          permission_denied h5 in
      let (_, h7) =
        of_refuse (str_eq r.action "create" && not (str_eq r.expected_readback_digest ""))
          permission_denied h6 in
      let (payload, _, h8) = of_bind (c.validate_payload r.payload (str_eq r.action "create")) h7 in
      let operation =
        new_execution id user.id
          (record r { payload = payload; provider_configuration = obj end }) in
      let ((request, digest), _, h9) = of_bind (review c w intent run operation) h8 in
      stored-Submitted draft user (reviewed operation request digest)
        (first (λ (x : Execution). x.intent_id == r.intent_id) s.drafts) s refl h9

  pub submit_draft-Submitted :
      (id : ℕ) (user : User) (r : Submission) (s : Store) {x : Execution} {t : Store}
      → submit_draft c now w id user r s ≡ ok (x, t)
      → Submitted draft id s t
  unfolding submit_draft
  submit_draft-Submitted id user r s {x} {t} h =
      let (intent, _, h1) = of_bind (intent_row c now w r.intent_id) h in
      go (str_eq intent.provider "iterable") h1
    where
      go :
          (b : Bool)
          → (if b
              then submit_iterable_campaign c now w id user r s
              else submit_eventbrite c now w id user r s)
            ≡ ok (x, t)
          → Submitted draft id s t
      go true e =
          let (_, e1) =
            of_refuse
              (not (str_eq r.action "create")
                || (not (str_eq r.organization_id "")
                    || (not (str_eq r.event_id "") || not (str_eq r.expected_readback_digest ""))))
              permission_denied e in
          new_iterable_operation-Submitted draft id user r s e1
      go false e = submit_eventbrite-Submitted id user r s e

  pub submit_template-Submitted :
      (id : ℕ) (user : User) (intent_id run_id : ℕ) (sender region : Json) (s : Store)
      {x : Execution} {t : Store}
      → submit_template c now w id user intent_id run_id sender region s ≡ ok (x, t)
      → Submitted template id s t
  unfolding submit_template
  submit_template-Submitted id user intent_id run_id sender region s h =
      let (intent, _, h1) = of_bind (intent_row c now w intent_id) h in
      let (payload, _, h2) = of_bind (caught (c.author_payload intent sender 2)) h1 in
      new_iterable_operation-Submitted template id user _ s h2

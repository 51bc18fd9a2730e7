-- ===== src/Draft/System/Kept.antt =====
-- What no call of backend/integrations/draft_operations.py changes, and what a succeeded row has.
use civic_loop.Draft.System.Writes.{of_save}
use civic_loop.Draft.System.Claims.{Claimed, Approved, of_approve, of_claim}
use civic_loop.Draft.System.{
  State, Step, submits, submits_template, approves, claims, reconciles, sends, aborts, finishes,
  crashes, loses,
}
use civic_loop.Draft.System.Submits.{submit_draft-Submitted, submit_template-Submitted, Submitted}
use civic_loop.Draft.System.Spec.{lost}
use civic_loop.Draft.Rows.{lifecycle_for, rows, with_rows, valid, save_execution, update_ended}
use civic_loop.Draft.Dispatch.{
  Reply, store_reply, is_definite, unconfirmed_dispatch, or_unknown, eventbrite_reply, finish_rows,
  finish, abort_rows, abort, receipt_invalid, with_receipt, Worker,
}
use civic_loop.Prelude.Result.{Result, ok, err, of_refuse, of_ok, of_bind}
use civic_loop.Prelude.{
  ℕ, ◌≡◌, refl, sym, ◌∙◌, ap, subst, arith, String, Bool, true, false, some, List, str_eq,
  if◌then◌else◌, inl, inr,
}
use civic_loop.Draft.Dispatch.{untyped, failure, receipt, refused}
use civic_loop.Draft.Claim.{claimed}
use civic_loop.Draft.{
  Error, value_error, approved, executing, failed, unknown, User, World, status_eq, Kind, draft,
  template, Execution, Store, Contracts, Receipt, Status, succeeded, pending,
}

-- A row that succeeded has a confirmed receipt of its own request, and a provider's id.
pub Confirmed : Execution → Type 0
Confirmed x =
    x.status ≡ succeeded
    → (r : Receipt) × (x.receipt ≡ some r)
      × (str_eq r.outcome "CONFIRMED" ≡ true)
      × (str_eq r.request_digest x.request_digest ≡ true)
      × (str_eq x.provider_id "" ≡ false)

-- What a step writes: nothing, one row through `save`, or the end of one row through `update`.
pub data Wrote : Store → Store → Type 0 where
  nothing : (s : Store) → Wrote s s
  saved :
      (kind : Kind) (x : Execution) (s : Store) (ys : List Execution)
      → save_execution x (rows kind s) ≡ ok ys
      → Confirmed x
      → Wrote s (with_rows kind ys s)
  updated :
      (kind : Kind) (id : ℕ) (status : Status) (category : String) (now : ℕ) (s : Store)
      (ys : List Execution)
      → update_ended id status category now (rows kind s) ≡ ok ys
      → lost status ≡ true
      → Wrote s (with_rows kind ys s)

pub unconfirmed_status :
    (x : Execution) (a : Status) → x.status ≡ a → status_eq a succeeded ≡ false → Confirmed x
unfolding Confirmed
unconfirmed_status x a e n h =
    let absurd : ⊥ = ground (arith, n, ap (λ b. status_eq b succeeded) (sym e ∙ h)) in
    elim absurd [ ]

Submitted-Wrote : (kind : Kind) (id : ℕ) (s t : Store) → Submitted kind id s t → Wrote s t
Submitted-Wrote kind id s t (inl e) = rw e (nothing s)
Submitted-Wrote kind id s t (inr (x, ys, h, _, e, written)) =
    rw written (saved kind x s ys h (unconfirmed_status x pending e refl))

of_succeeded : (b : Bool) → (if b then succeeded else unknown) ≡ succeeded → b ≡ true
of_succeeded true h = refl
of_succeeded false h = ground (arith, ap (λ a. status_eq a succeeded) h)

-- The constraint of a succeeded row
valid-named :
    (x : Execution) → valid x ≡ true → x.status ≡ succeeded → str_eq x.provider_id "" ≡ false
unfolding valid
valid-named x v h =
    let lifecycle : lifecycle_for x.status x ≡ true = ground (arith, v) in
    let named : lifecycle_for succeeded x ≡ true =
      ap (λ a. lifecycle_for a x) (sym h) ∙ lifecycle in
    ground (arith, named)

-- The row that a valid receipt is stored in
with_receipt-Confirmed :
    (now : ℕ) (k : Worker) (r : Receipt)
    → receipt_invalid k.is_iterable k.kind k.operation r ≡ false
    → valid (with_receipt now r k.operation) ≡ true
    → Confirmed (with_receipt now r k.operation)
unfolding Confirmed receipt_invalid with_receipt
with_receipt-Confirmed now k r fits v h = (
  r,
  refl,
  of_succeeded (str_eq r.outcome "CONFIRMED") h,
  ground (arith, fits),
  valid-named (with_receipt now r k.operation) v h,
)

store_reply-Wrote :
    (now : ℕ) (k : Worker) (reply : Reply) (s : Store) {ys : List Execution}
    → store_reply now k reply (rows k.kind s) ≡ ok ys
    → Wrote s (with_rows k.kind ys s)
unfolding store_reply
store_reply-Wrote now k (receipt r) s {ys} h =
    let (fits, h1) = of_refuse (receipt_invalid k.is_iterable k.kind k.operation r) value_error h in
    let x = with_receipt now r k.operation in
    saved k.kind x s ys h1 (with_receipt-Confirmed now k r fits (of_save x (rows k.kind s) h1).0)
store_reply-Wrote now k untyped s h = ground arith
store_reply-Wrote now k (refused category) s h = ground arith
store_reply-Wrote now k failure s h = ground arith

unconfirmed_dispatch-Wrote :
    (now : ℕ) (k : Worker) (s : Store) {ys : List Execution}
    → unconfirmed_dispatch now k (rows k.kind s) ≡ ok ys
    → Wrote s (with_rows k.kind ys s)
unconfirmed_dispatch-Wrote now k s {ys} h =
    updated k.kind k.operation.id unknown "dispatch_unconfirmed" now s ys h refl

or_unknown-Wrote :
    (now : ℕ) (k : Worker) (r : Result Error (List Execution)) (s : Store) {ys : List Execution}
    → ((zs : List Execution) → r ≡ ok zs → Wrote s (with_rows k.kind zs s))
    → or_unknown now k r (rows k.kind s) ≡ ok ys
    → Wrote s (with_rows k.kind ys s)
or_unknown-Wrote now k (ok zs) s f h = f _ h
or_unknown-Wrote now k (err e) s f h = unconfirmed_dispatch-Wrote now k s h

record_error-Wrote :
    (now : ℕ) (k : Worker) (definite : Bool) (category : String) (s : Store) {ys : List Execution}
    → (if definite
        then update_ended k.operation.id failed category now (rows k.kind s)
        else unconfirmed_dispatch now k (rows k.kind s))
      ≡ ok ys
    → Wrote s (with_rows k.kind ys s)
record_error-Wrote now k true category s {ys} h =
    updated k.kind k.operation.id failed category now s ys h refl
record_error-Wrote now k false category s h = unconfirmed_dispatch-Wrote now k s h

stored-or_unknown :
    (now : ℕ) (k : Worker) (reply : Reply) (s : Store) {ys : List Execution}
    → or_unknown now k (store_reply now k reply (rows k.kind s)) (rows k.kind s) ≡ ok ys
    → Wrote s (with_rows k.kind ys s)
stored-or_unknown now k reply s h =
    or_unknown-Wrote now k (store_reply now k reply (rows k.kind s)) s
      (λ zs e. store_reply-Wrote now k reply s e) h

eventbrite_reply-Wrote :
    (now : ℕ) (k : Worker) (reply : Reply) (s : Store) {ys : List Execution}
    → eventbrite_reply now k reply (rows k.kind s) ≡ ok ys
    → Wrote s (with_rows k.kind ys s)
eventbrite_reply-Wrote now k (refused category) s h =
    record_error-Wrote now k (is_definite category) category s h
eventbrite_reply-Wrote now k (receipt r) s h = stored-or_unknown now k (receipt r) s h
eventbrite_reply-Wrote now k untyped s h = stored-or_unknown now k untyped s h
eventbrite_reply-Wrote now k failure s h = stored-or_unknown now k failure s h

finish_rows-Wrote :
    (is_iterable is_reconciling : Bool) (now : ℕ) (k : Worker) (reply : Reply) (s : Store)
    {ys : List Execution}
    → finish_rows is_iterable is_reconciling now k reply (rows k.kind s) ≡ ok ys
    → Wrote s (with_rows k.kind ys s)
finish_rows-Wrote true r now k reply s h = stored-or_unknown now k reply s h
finish_rows-Wrote false false now k reply s h = eventbrite_reply-Wrote now k reply s h
finish_rows-Wrote false true now k reply s h = store_reply-Wrote now k reply s h

abort_rows-Wrote :
    (is_iterable is_reconciling : Bool) (now : ℕ) (k : Worker) (e : Error) (s : Store)
    {ys : List Execution}
    → abort_rows is_iterable is_reconciling now k e (rows k.kind s) ≡ ok ys
    → Wrote s (with_rows k.kind ys s)
abort_rows-Wrote false true now k e s h = ground arith
abort_rows-Wrote false false now k e s h = unconfirmed_dispatch-Wrote now k s h
abort_rows-Wrote true false now k e s h = unconfirmed_dispatch-Wrote now k s h
abort_rows-Wrote true true now k e s h = unconfirmed_dispatch-Wrote now k s h

finish-Wrote :
    (now : ℕ) (k : Worker) (reply : Reply) (s : Store) {t : Store}
    → finish now k reply s ≡ ok t
    → Wrote s t
unfolding finish
finish-Wrote now k reply s h =
    let (ys, e, h1) =
      of_bind (finish_rows k.is_iterable k.is_reconciling now k reply (rows k.kind s)) h in
    subst (Wrote s) (of_ok h1) (finish_rows-Wrote k.is_iterable k.is_reconciling now k reply s e)

abort-Wrote :
    (now : ℕ) (k : Worker) (e : Error) (s : Store) {t : Store} → abort now k e s ≡ ok t → Wrote s t
unfolding abort
abort-Wrote now k e s h =
    let (ys, ends, h1) =
      of_bind (abort_rows k.is_iterable k.is_reconciling now k e (rows k.kind s)) h in
    subst (Wrote s) (of_ok h1) (abort_rows-Wrote k.is_iterable k.is_reconciling now k e s ends)

Approved-Wrote :
    (kind : Kind) (user : User) (now id : ℕ) (shown : String) (s : Store) (x : Execution)
    (t : Store)
    → Approved kind user now id shown s (x, t)
    → Wrote s t
unfolding Approved
Approved-Wrote kind user now id shown s x t (operation, _, _, _, _, same, (ys, h, e)) =
    rw e (saved kind x s ys h (unconfirmed_status x approved (rw same refl) refl))

Claimed-Wrote :
    (c : Contracts) (now : ℕ) (w : World) (kind : Kind) (user : User) (session_id id : ℕ)
    (s : Store) (k : Worker) (t : Store)
    → Claimed c now w kind user session_id id s (k, t)
    → Wrote s t
unfolding Claimed
Claimed-Wrote c now w kind user session_id id s k t (operation, _, _, _, _, _, _, _, (ys, h, e)) =
    let x = claimed k.is_iterable now operation in
    rw e (saved kind x s ys h (unconfirmed_status x executing refl refl))

module _ (c : Contracts) where
  pub Step-Wrote : {s t : State} → Step c s t → Wrote s.store t.store
  Step-Wrote (submits now w id user r x s t absent e) =
      Submitted-Wrote draft id s.store t (submit_draft-Submitted c now w id user r s.store e)
  Step-Wrote (submits_template now w id user intent_id run_id sender region x s t absent e) =
      Submitted-Wrote template id s.store t
        (submit_template-Submitted c now w id user intent_id run_id sender region s.store e)
  Step-Wrote (approves now w kind user session_id id shown revision_id x s t e) =
      Approved-Wrote kind user now id shown s.store x t
        (of_approve c now w kind user session_id id shown revision_id s.store e)
  Step-Wrote (claims now w kind user session_id id k s t e) =
      Claimed-Wrote c now w kind user session_id id s.store k t
        (of_claim c now w false kind user session_id id s.store e)
  Step-Wrote (reconciles now w kind user session_id id k s e) = nothing s.store
  Step-Wrote (sends now w leased k before after s e p) = nothing s.store
  Step-Wrote (aborts now w leased k before after error s t e p a) =
      abort-Wrote now k error s.store a
  Step-Wrote (finishes now k reply before after s t e f) = finish-Wrote now k reply s.store f
  Step-Wrote (crashes k before after s e) = nothing s.store
  Step-Wrote (loses k before after s e) = nothing s.store

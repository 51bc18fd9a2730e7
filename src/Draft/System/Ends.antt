-- ===== src/Draft/System/Ends.antt =====
-- What the end of a call (backend/integrations/draft_operations.py) does to the statuses: it stores
-- a receipt through `save`, or its handlers update the row.
use civic_loop.Draft.Dispatch.{untyped, failure, receipt, refused}
use civic_loop.Draft.System.Writes.{Saved, of_save, save_execution-Move, update_ended-Move}
use civic_loop.Draft.System.Submits.{Moves, with_rows-Moves}
use civic_loop.Draft.System.Spec.{Move, status_of, status_at, started_status, started, is_move}
use civic_loop.Draft.Rows.{rows, key, transition, history_reset, update_ended}
use civic_loop.Draft.Dispatch.{
  receipt, Reply, refused, receipt_invalid, with_receipt, store_reply, is_definite,
  unconfirmed_dispatch, or_unknown, eventbrite_reply, finish_rows, finish, abort_rows, abort,
  Worker,
}
use civic_loop.Prelude.Result.{Result, ok, err, of_refuse, of_ok, of_bind}
use civic_loop.Prelude.{
  ℕ, ◌≡◌, refl, subst, arith, String, Bool, true, false, some, List, str_eq, if◌then◌else◌, inl,
  inr,
}
use civic_loop.Prelude.Table.{find}
use civic_loop.Draft.{
  pending, approved, executing, Status, succeeded, failed, unknown, Execution, Store, Error,
  value_error,
}

-- Every status of a table moves as the machine may.
abbrev TableMoves : List Execution → List Execution → Type 0
TableMoves xs ys = (j : ℕ) → Move (status_of (find key j xs)) (status_of (find key j ys))

-- A receipt's status, stored into a claimed row under the table of transitions
is_move-receipt :
    (o : Status) (confirmed : Bool)
    → started_status o ≡ true
    → transition o (if confirmed then succeeded else unknown) ≡ true
    → is_move (some o) (some (if confirmed then succeeded else unknown)) ≡ true
is_move-receipt pending true s h = s
is_move-receipt pending false s h = s
is_move-receipt approved true s h = s
is_move-receipt approved false s h = s
is_move-receipt executing true s h = refl
is_move-receipt executing false s h = refl
is_move-receipt succeeded true s h = refl
is_move-receipt succeeded false s h = refl
is_move-receipt failed true s h = h
is_move-receipt failed false s h = refl
is_move-receipt unknown true s h = refl
is_move-receipt unknown false s h = refl

store_reply-Moves :
    (now : ℕ) (k : Worker) (reply : Reply) (xs : List Execution) {ys : List Execution}
    → started (status_of (find key k.operation.id xs)) ≡ true
    → store_reply now k reply xs ≡ ok ys
    → TableMoves xs ys
unfolding store_reply with_receipt history_reset
store_reply-Moves now k (receipt r) xs {ys} s h =
    let (_, h1) = of_refuse (receipt_invalid k.is_iterable k.kind k.operation r) value_error h in
    let x = with_receipt now r k.operation in
    λ j. save_execution-Move x xs j h1 (go (of_save x xs h1).1)
  where
    go :
        Saved (find key k.operation.id xs) (with_receipt now r k.operation) xs ys
        → is_move
            (status_of (find key k.operation.id xs))
            (some (if str_eq r.outcome "CONFIRMED" then succeeded else unknown))
          ≡ true
    go (inl (absent, _)) = ground (arith, absent, s)
    go (inr (old, found, _, history, _)) = rw found (
        is_move-receipt old.status (str_eq r.outcome "CONFIRMED")
          (subst (λ o. started (status_of o) ≡ true) found s) (ground (arith, history)))
store_reply-Moves now k untyped xs s h = ground arith
store_reply-Moves now k (refused category) xs s h = ground arith
store_reply-Moves now k failure xs s h = ground arith

unconfirmed_dispatch-Moves :
    (now : ℕ) (k : Worker) (xs : List Execution) {ys : List Execution}
    → started (status_of (find key k.operation.id xs)) ≡ true
    → unconfirmed_dispatch now k xs ≡ ok ys
    → TableMoves xs ys
unconfirmed_dispatch-Moves now k xs s h j =
    update_ended-Move k.operation.id unknown "dispatch_unconfirmed" now xs j h s refl

or_unknown-Moves :
    (now : ℕ) (k : Worker) (r : Result Error (List Execution)) (xs : List Execution)
    {ys : List Execution}
    → started (status_of (find key k.operation.id xs)) ≡ true
    → ((zs : List Execution) → r ≡ ok zs → TableMoves xs zs)
    → or_unknown now k r xs ≡ ok ys
    → TableMoves xs ys
or_unknown-Moves now k (ok zs) xs s f h = f _ h
or_unknown-Moves now k (err e) xs s f h = unconfirmed_dispatch-Moves now k xs s h

record_error-Moves :
    (now : ℕ) (k : Worker) (definite : Bool) (category : String) (xs : List Execution)
    {ys : List Execution}
    → started (status_of (find key k.operation.id xs)) ≡ true
    → (if definite
        then update_ended k.operation.id failed category now xs
        else unconfirmed_dispatch now k xs)
      ≡ ok ys
    → TableMoves xs ys
record_error-Moves now k true category xs s h =
    λ j. update_ended-Move k.operation.id failed category now xs j h s refl
record_error-Moves now k false category xs s h = unconfirmed_dispatch-Moves now k xs s h

stored-or_unknown :
    (now : ℕ) (k : Worker) (reply : Reply) (xs : List Execution) {ys : List Execution}
    → started (status_of (find key k.operation.id xs)) ≡ true
    → or_unknown now k (store_reply now k reply xs) xs ≡ ok ys
    → TableMoves xs ys
stored-or_unknown now k reply xs s h =
    or_unknown-Moves now k (store_reply now k reply xs) xs s
      (λ zs e. store_reply-Moves now k reply xs s e) h

eventbrite_reply-Moves :
    (now : ℕ) (k : Worker) (reply : Reply) (xs : List Execution) {ys : List Execution}
    → started (status_of (find key k.operation.id xs)) ≡ true
    → eventbrite_reply now k reply xs ≡ ok ys
    → TableMoves xs ys
eventbrite_reply-Moves now k (refused category) xs s h =
    record_error-Moves now k (is_definite category) category xs s h
eventbrite_reply-Moves now k (receipt r) xs s h = stored-or_unknown now k (receipt r) xs s h
eventbrite_reply-Moves now k untyped xs s h = stored-or_unknown now k untyped xs s h
eventbrite_reply-Moves now k failure xs s h = stored-or_unknown now k failure xs s h

finish_rows-Moves :
    (is_iterable is_reconciling : Bool) (now : ℕ) (k : Worker) (reply : Reply) (xs : List Execution)
    {ys : List Execution}
    → started (status_of (find key k.operation.id xs)) ≡ true
    → finish_rows is_iterable is_reconciling now k reply xs ≡ ok ys
    → TableMoves xs ys
finish_rows-Moves true r now k reply xs s h = stored-or_unknown now k reply xs s h
finish_rows-Moves false false now k reply xs s h = eventbrite_reply-Moves now k reply xs s h
finish_rows-Moves false true now k reply xs s h = store_reply-Moves now k reply xs s h

abort_rows-Moves :
    (is_iterable is_reconciling : Bool) (now : ℕ) (k : Worker) (e : Error) (xs : List Execution)
    {ys : List Execution}
    → started (status_of (find key k.operation.id xs)) ≡ true
    → abort_rows is_iterable is_reconciling now k e xs ≡ ok ys
    → TableMoves xs ys
abort_rows-Moves false true now k e xs s h = ground arith
abort_rows-Moves false false now k e xs s h = unconfirmed_dispatch-Moves now k xs s h
abort_rows-Moves true false now k e xs s h = unconfirmed_dispatch-Moves now k xs s h
abort_rows-Moves true true now k e xs s h = unconfirmed_dispatch-Moves now k xs s h

-- The end of a call on a claimed operation
pub finish-Moves :
    (now : ℕ) (k : Worker) (reply : Reply) (s : Store) {t : Store}
    → started (status_at k.kind k.operation.id s) ≡ true
    → finish now k reply s ≡ ok t
    → Moves s t
unfolding finish
finish-Moves now k reply s begun h =
    let rows_before = rows k.kind s in
    let (ys, e, h1) =
      of_bind (finish_rows k.is_iterable k.is_reconciling now k reply rows_before) h in
    subst (Moves s) (of_ok h1) (
      with_rows-Moves k.kind s ys
        (finish_rows-Moves k.is_iterable k.is_reconciling now k reply rows_before begun e))

pub abort-Moves :
    (now : ℕ) (k : Worker) (e : Error) (s : Store) {t : Store}
    → started (status_at k.kind k.operation.id s) ≡ true
    → abort now k e s ≡ ok t
    → Moves s t
unfolding abort
abort-Moves now k e s begun h =
    let rows_before = rows k.kind s in
    let (ys, ends, h1) =
      of_bind (abort_rows k.is_iterable k.is_reconciling now k e rows_before) h in
    subst (Moves s) (of_ok h1) (
      with_rows-Moves k.kind s ys
        (abort_rows-Moves k.is_iterable k.is_reconciling now k e rows_before begun ends))

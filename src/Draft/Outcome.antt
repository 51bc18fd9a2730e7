-- ===== src/Draft/Outcome.antt =====
-- The end of a dispatch of backend/integrations/draft_operations.py: its handlers leave no row
-- executing.
use civic_loop.Draft.System.Submits.{rows-with_rows}
use civic_loop.Draft.System.Writes.{ended_row, find-update_ended}
use civic_loop.Draft.System.Spec.{lost, started_status}
use civic_loop.Prelude.Result.{Result, ok, refuse_pass, bind_pass}
use civic_loop.Prelude.{
  of_and, ℕ, ◌≡◌, refl, ◌∙◌, ap, arith, String, Bool, true, false, not, ◌&&◌, ◌||◌, Option, some,
  List, ◌==◌, if◌then◌else◌, ==_refl,
}
use civic_loop.Prelude.Table.{save, find}
use civic_loop.Draft.{
  Execution, Store, Status, succeeded, failed, unknown, pending, approved, executing, Error,
}
use civic_loop.Draft.Dispatch.{
  Reply, store_reply, is_definite, unconfirmed_dispatch, finish_rows, finish, Worker, receipt,
  untyped, refused, failure,
}
use civic_loop.Draft.Rows.{
  rows, with_rows, action_valid, key, approval_for, lifecycle_for, valid, update_found,
  update_ended, ended,
}

of_both : (a b : Bool) → a ≡ true → b ≡ true → (a && b) ≡ true
of_both a b h k = rw h k

-- The constraints on a claimed row let it end.
valid-started :
    (x : Execution) (a b : Status) (category : String) (now : ℕ)
    → started_status a ≡ true
    → lost b ≡ true
    → (approval_for a x && lifecycle_for a x) ≡ true
    → (approval_for b (ended b category now x) && lifecycle_for b (ended b category now x)) ≡ true
valid-started x executing failed category now s l h = ground (arith, h)
valid-started x executing unknown category now s l h = ground (arith, h)
valid-started x succeeded failed category now s l h = ground (arith, h)
valid-started x succeeded unknown category now s l h = ground (arith, h)
valid-started x failed failed category now s l h = ground (arith, h)
valid-started x failed unknown category now s l h = ground (arith, h)
valid-started x unknown failed category now s l h = ground (arith, h)
valid-started x unknown unknown category now s l h = ground (arith, h)
valid-started x pending b category now s l h = ground (arith, s)
valid-started x approved b category now s l h = ground (arith, s)
valid-started x a pending category now s l h = ground (arith, l)
valid-started x a approved category now s l h = ground (arith, l)
valid-started x a executing category now s l h = ground (arith, l)
valid-started x a succeeded category now s l h = ground (arith, l)

valid-ended :
    (x : Execution) (b : Status) (category : String) (now : ℕ)
    → valid x ≡ true
    → started_status x.status ≡ true
    → lost b ≡ true
    → valid (ended b category now x) ≡ true
unfolding valid action_valid
valid-ended x b category now v s l =
    let (action, rest) = of_and (action_valid x) v in
    of_both (action_valid x) _ action (valid-started x x.status b category now s l rest)

-- An update of a claimed row does not fail.
update_found-returns :
    (o : Option Execution) (x : Execution) (b : Status) (category : String) (now : ℕ)
    (xs : List Execution)
    → o ≡ some x
    → valid (ended b category now x) ≡ true
    → update_found o b category now xs ≡ ok (save key (ended b category now x) xs)
update_found-returns o x b category now xs found v = rw found (refuse_pass _ _ _ (rw v refl))

-- A table with a claimed row that meets its constraints
abbrev Claimed : ℕ → List Execution → Execution → Type 0
Claimed id xs x = (find key id xs ≡ some x) × (valid x ≡ true) × (started_status x.status ≡ true)

-- The table after an end with a status
abbrev EndsAs : ℕ → Status → ℕ → Execution → Result Error (List Execution) → Type 0
EndsAs id b now x r =
    (category : String) × (ys : List Execution) × (r ≡ ok ys)
    × (find key id ys ≡ some (ended b category now x))

update_ended-EndsAs :
    (id : ℕ) (b : Status) (category : String) (now : ℕ) (xs : List Execution) (x : Execution)
    → Claimed id xs x
    → lost b ≡ true
    → EndsAs id b now x (update_ended id b category now xs)
unfolding update_ended
update_ended-EndsAs id b category now xs x (found, v, s) l =
    let y = ended b category now x in
    let e =
      update_found-returns (find key id xs) x b category now xs found
        (valid-ended x b category now v s l) in
    (
      category,
      save key y xs,
      e,
      after (save key y xs) (find-update_ended id b category now xs id e),
    )
  where
    after :
        (ys : List Execution)
        → find key id ys
          ≡ (if id == id then ended_row b category now (find key id xs) else find key id xs)
        → find key id ys ≡ some (ended b category now x)
    after ys h = h ∙ rw (==_refl id) (ap (ended_row b category now) found)

-- Whether the call has handlers: all but a reconciliation with Eventbrite have.
abbrev pub is_handled : Worker → Bool
is_handled k = k.is_iterable || not k.is_reconciling

-- The status that a failed request leaves
abbrev pub loss : Bool → Reply → Status
loss false (refused category) = if is_definite category then failed else unknown
loss _ _ = unknown

abbrev pub is_receipt : Reply → Bool
is_receipt (receipt r) = true
is_receipt _ = false

abbrev Ends :
    ℕ → Worker → Status → Execution → List Execution → Result Error (List Execution) → Type 0
Ends now k b x xs r = Claimed k.operation.id xs x → EndsAs k.operation.id b now x r

unconfirmed-Ends :
    (now : ℕ) (k : Worker) (x : Execution) (xs : List Execution)
    → Ends now k unknown x xs (unconfirmed_dispatch now k xs)
unconfirmed-Ends now k x xs claimed =
    update_ended-EndsAs k.operation.id unknown "dispatch_unconfirmed" now xs x claimed refl

refused-Ends :
    (now : ℕ) (k : Worker) (definite : Bool) (category : String) (x : Execution)
    (xs : List Execution)
    → Ends now k (if definite then failed else unknown) x xs (
        if definite
        then update_ended k.operation.id failed category now xs
        else unconfirmed_dispatch now k xs)
refused-Ends now k true category x xs claimed =
    update_ended-EndsAs k.operation.id failed category now xs x claimed refl
refused-Ends now k false category x xs claimed = unconfirmed-Ends now k x xs claimed

finish_rows-Ends :
    (iterable reconciling : Bool) (now : ℕ) (k : Worker) (reply : Reply) (x : Execution)
    (xs : List Execution)
    → (iterable || not reconciling) ≡ true
    → is_receipt reply ≡ false
    → Ends now k (loss iterable reply) x xs (finish_rows iterable reconciling now k reply xs)
unfolding store_reply
finish_rows-Ends true r now k untyped x xs h n = unconfirmed-Ends now k x xs
finish_rows-Ends true r now k (refused category) x xs h n = unconfirmed-Ends now k x xs
finish_rows-Ends true r now k failure x xs h n = unconfirmed-Ends now k x xs
finish_rows-Ends false false now k untyped x xs h n = unconfirmed-Ends now k x xs
finish_rows-Ends false false now k (refused category) x xs h n =
    refused-Ends now k (is_definite category) category x xs
finish_rows-Ends false false now k failure x xs h n = unconfirmed-Ends now k x xs
finish_rows-Ends true r now k (receipt g) x xs h n = ground (arith, n)
finish_rows-Ends false false now k (receipt g) x xs h n = ground (arith, n)
finish_rows-Ends false true now k reply x xs h n = ground (arith, h)

-- A call with handlers whose request fails always returns: the row that it claimed ends as failed,
-- if Eventbrite gave a definite reason, and otherwise as unknown, with the time, and in every other
-- field but the category it is as it was. It does so whatever its status has become meanwhile: a row
-- that a reconciliation has brought to succeeded becomes failed or unknown again.
pub finish-loss :
    (now : ℕ) (k : Worker) (reply : Reply) (s : Store) (x : Execution)
    → is_handled k ≡ true
    → is_receipt reply ≡ false
    → find key k.operation.id (rows k.kind s) ≡ some x
    → valid x ≡ true
    → started_status x.status ≡ true
    → (category : String) × (t : Store) × (finish now k reply s ≡ ok t)
      × (find key k.operation.id (rows k.kind t)
          ≡ some (ended (loss k.is_iterable reply) category now x))
unfolding finish
finish-loss now k reply s x handled error found v st =
    let (category, ys, e, after) =
      finish_rows-Ends k.is_iterable k.is_reconciling now k reply x (rows k.kind s) handled error
        (found, v, st) in
    (category, with_rows k.kind ys s, bind_pass _ _ e, rw (rows-with_rows k.kind ys s) after)

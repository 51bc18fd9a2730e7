-- ===== src/Draft/System/Writes.antt =====
-- What `save` and `update` (backend/integrations/draft_operations.py, models.py) leave in a table.
use civic_loop.Prelude.Result.{ok, of_refuse, of_ok}
use civic_loop.Prelude.Table.{find, save, find-save, find-append, key-find}
use civic_loop.Prelude.{
  ℕ, ◌≡◌, refl, sym, ap, subst, arith, String, Bool, true, false, not, ◌⊎◌, inl, inr, Option, none,
  some, List, [], ◌∷◌, ◌++◌, any, ◌==◌, is_some, if◌then◌else◌, Bool-cases,
}
use civic_loop.Draft.{integrity_error, validation_error, Status, Execution}
use civic_loop.Draft.Rows.{
  update_found, save_row, key, save_execution, update_ended, valid, review_changed, history_reset,
  ended,
}
use civic_loop.Draft.System.Spec.{
  Move, stays, is_move, is_move-Move, is_move-lost, is_move_refl, status_of, started, lost,
}

of_not : (b : Bool) → not b ≡ false → b ≡ true
of_not true h = refl
of_not false h = ground arith

-- What a save that returned has found, and the table it leaves.
abbrev pub Saved : Option Execution → Execution → List Execution → List Execution → Type 0
Saved o x xs ys =
    (o ≡ none) × (ys ≡ xs ++ x ∷ [])
    ⊎ ((old : Execution) × (o ≡ some old)
        × (review_changed old x ≡ false)
        × (history_reset old x ≡ false)
        × (ys ≡ save key x xs))

of_save_row :
    (o : Option Execution) (x : Execution) (xs : List Execution) {ys : List Execution}
    → save_row o x xs ≡ ok ys
    → (valid x ≡ true) × Saved o x xs ys
of_save_row none x xs h =
    let (v, h1) = of_refuse (not (valid x)) integrity_error h in
    let (_, h2) =
      of_refuse (any (λ (y : Execution). y.intent_id == x.intent_id) xs) integrity_error h1 in
    (of_not (valid x) v, inl (refl, sym (of_ok h2)))
of_save_row (some old) x xs h =
    let (review, h1) = of_refuse (review_changed old x) validation_error h in
    let (history, h2) = of_refuse (history_reset old x) validation_error h1 in
    let (v, h3) = of_refuse (not (valid x)) integrity_error h2 in
    (of_not (valid x) v, inr (old, refl, review, history, sym (of_ok h3)))

pub of_save :
    (x : Execution) (xs : List Execution) {ys : List Execution}
    → save_execution x xs ≡ ok ys
    → (valid x ≡ true) × Saved (find key x.id xs) x xs ys
unfolding save_execution
of_save x xs h = of_save_row (find key x.id xs) x xs h

-- The saved row is the one that is found by its id, and the others are as they were.
pub find-save_execution :
    (x : Execution) (xs : List Execution) {ys : List Execution} (id : ℕ)
    → save_execution x xs ≡ ok ys
    → find key id ys ≡ (if x.id == id then some x else find key id xs)
find-save_execution x xs {ys} id h = go (of_save x xs h).1
  where
    go :
        Saved (find key x.id xs) x xs ys
        → find key id ys ≡ (if x.id == id then some x else find key id xs)
    go (inl (absent, e)) =
        rw e (ground (arith, absent, find-append key id x xs, ap (λ n. find key n xs)))
    go (inr (old, found, _, _, e)) = rw e (ground (arith, found, find-save key id x xs))

-- The row that an update leaves, if it was there
abbrev pub ended_row : Status → String → ℕ → Option Execution → Option Execution
ended_row status category now none = none
ended_row status category now (some x) = some (ended status category now x)

find-update_found :
    (o : Option Execution) (id : ℕ) (status : Status) (category : String) (now : ℕ)
    (xs : List Execution) {ys : List Execution} (j : ℕ)
    → find key id xs ≡ o
    → update_found o status category now xs ≡ ok ys
    → find key j ys ≡ (if id == j then ended_row status category now o else find key j xs)
find-update_found none id status category now xs j found h =
    rw (sym (of_ok h)) (ground (arith, found, ap (λ n. find key n xs)))
find-update_found (some x) id status category now xs j found h =
    let y = ended status category now x in
    let (_, h1) = of_refuse (not (valid y)) integrity_error h in
    rw (sym (of_ok h1)) (
      ground
        (arith, found, key-find key id xs found, find-save key j y xs, ap (λ n. find key n xs)))

pub find-update_ended :
    (id : ℕ) (status : Status) (category : String) (now : ℕ) (xs : List Execution)
    {ys : List Execution} (j : ℕ)
    → update_ended id status category now xs ≡ ok ys
    → find key j ys
      ≡ (if id == j then ended_row status category now (find key id xs) else find key j xs)
unfolding update_ended
find-update_ended id status category now xs j h =
    find-update_found (find key id xs) id status category now xs j refl h

status-ended_row :
    (status : Status) (category : String) (now : ℕ) (o : Option Execution)
    → status_of (ended_row status category now o) ≡ (if is_some o then some status else none)
status-ended_row status category now none = refl
status-ended_row status category now (some x) = refl

status-update_ended :
    (id : ℕ) (status : Status) (category : String) (now : ℕ) (xs : List Execution)
    {ys : List Execution} (j : ℕ)
    → update_ended id status category now xs ≡ ok ys
    → status_of (find key j ys) ≡ (
        if id == j
        then (if is_some (find key id xs) then some status else none)
        else status_of (find key j xs))
status-update_ended id status category now xs j h =
    rw (find-update_ended id status category now xs j h)
      (ground (arith, status-ended_row status category now (find key id xs)))

-- A save moves the machine as the row's new status does, and no other.
pub save_execution-Move :
    (x : Execution) (xs : List Execution) {ys : List Execution} (id : ℕ)
    → save_execution x xs ≡ ok ys
    → is_move (status_of (find key x.id xs)) (some x.status) ≡ true
    → Move (status_of (find key id xs)) (status_of (find key id ys))
save_execution-Move x xs {ys} id h m = elim (Bool-cases (x.id == id)) [
  | inl same ↦ is_move-Move (status_of (find key id xs)) (status_of (find key id ys)) (
      ground (
        arith,
        m,
        same,
        find-save_execution x xs id h,
        ap (λ n. is_move (status_of (find key n xs)) (some x.status)),
      ))
  | inr other ↦
      subst (λ o. Move (status_of (find key id xs)) (status_of o))
        (sym (ground (arith, find-save_execution x xs id h))) (stays (status_of (find key id xs)))
]

-- So does the end of a claimed row.
pub update_ended-Move :
    (id : ℕ) (status : Status) (category : String) (now : ℕ) (xs : List Execution)
    {ys : List Execution} (j : ℕ)
    → update_ended id status category now xs ≡ ok ys
    → started (status_of (find key id xs)) ≡ true
    → lost status ≡ true
    → Move (status_of (find key j xs)) (status_of (find key j ys))
update_ended-Move id status category now xs {ys} j h s l =
    is_move-Move (status_of (find key j xs)) (status_of (find key j ys))
      (elim (Bool-cases (id == j)) [
        | inl same ↦ ground (
          arith,
          same,
          status-update_ended id status category now xs j h,
          s,
          is_move-lost (status_of (find key id xs)) status s l,
          is_move_refl (status_of (find key j xs)),
          ap (λ n. is_move (status_of (find key n xs)) (some status)),
        )
        | inr other ↦ ground (
          arith,
          status-update_ended id status category now xs j h,
          is_move_refl (status_of (find key j xs)),
        )
      ])

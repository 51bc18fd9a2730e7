-- ===== src/Draft/System/Review.antt =====
-- What was reviewed and approved stays, and what has succeeded was confirmed, whatever calls of
-- backend/integrations/draft_operations.py run.
use civic_loop.Draft.System.Spec.{lost}
use civic_loop.Draft.System.Writes.{
  Saved, of_save, find-save_execution, ended_row, find-update_ended,
}
use civic_loop.Draft.Rows.{
  key, rows, with_rows, same_time, same_review, same_approval, review_changed, save_execution,
  ended, update_ended,
}
use civic_loop.Prelude.Result.{ok}
use civic_loop.Prelude.{
  is_some, ℕ, ◌≡◌, refl, sym, ◌∙◌, ap, subst, arith, String, true, false, Option, none, some, List,
  ◌==◌, inl, inr, Bool-cases, of_some, str_eq_refl, ==_refl, ==_iff,
}
use civic_loop.Prelude.Table.{find}
use civic_loop.Draft.{
  approved, executing, failed, unknown, status_eq, Kind, draft, template, Execution, Store,
  Contracts, Status, succeeded, pending,
}
use civic_loop.Draft.System.{initial, Reach, then_step, State, Step, start}
use civic_loop.Json.{dumps}
use civic_loop.Draft.System.Kept.{
  unconfirmed_status, Confirmed, Wrote, Step-Wrote, nothing, saved, updated,
}
use civic_loop.Draft.Rows.{ended}

-- A change of one table that others keep
lift :
    (P : List Execution → List Execution → Type 0) (kind other : Kind) (ys : List Execution)
    (s : Store)
    → ((xs : List Execution) → P xs xs)
    → P (rows other s) ys
    → P (rows kind s) (rows kind (with_rows other ys s))
lift P draft draft ys s r p = p
lift P template template ys s r p = p
lift P draft template ys s r p = r s.drafts
lift P template draft ys s r p = r s.templates

-- The review is that of the row before, and so is its approval, if it had one.
pub Unchanged : Execution → Execution → Type 0
Unchanged a b = (same_review a b ≡ true) × (is_some a.approver_id ≡ true → same_approval a b ≡ true)

same_time_refl : (o : Option ℕ) → same_time o o ≡ true
same_time_refl none = refl
same_time_refl (some n) = ==_refl n

Unchanged-refl : (a : Execution) → Unchanged a a
unfolding Unchanged same_review same_approval
Unchanged-refl a = (
  ground (
    arith,
    ==_refl a.intent_id,
    ==_refl a.run_id,
    ==_refl a.submitter_id,
    str_eq_refl a.action,
    str_eq_refl a.organization_id,
    str_eq_refl a.event_id,
    str_eq_refl a.expected_readback_digest,
    str_eq_refl (dumps a.payload),
    str_eq_refl (dumps a.provider_configuration),
    str_eq_refl a.request_digest,
    str_eq_refl a.review_digest,
  ),
  λ _. ground (
    arith,
    same_time_refl a.approver_id,
    same_time_refl a.approved_at,
    same_time_refl a.approval_session_id,
  ),
)

of_review_changed : (a b : Execution) → review_changed a b ≡ false → Unchanged a b
unfolding Unchanged review_changed
of_review_changed a b h = (ground (arith, h), λ p. ground (arith, h, p))

abbrev TableKept : List Execution → List Execution → Type 0
TableKept xs ys =
    (id : ℕ) (a : Execution)
    → find key id xs ≡ some a
    → (b : Execution) × (find key id ys ≡ some b) × Unchanged a b

TableKept-refl : (xs : List Execution) → TableKept xs xs
TableKept-refl xs id a h = (a, h, Unchanged-refl a)

Saved-Unchanged :
    (o : Option Execution) (a x : Execution) (xs ys : List Execution)
    → o ≡ some a
    → Saved o x xs ys
    → Unchanged a x
Saved-Unchanged o a x xs ys found (inl (absent, _)) = ground (arith, absent, found)
Saved-Unchanged o a x xs ys found (inr (old, there, changed, _, _)) =
    of_review_changed a x
      (subst (λ e. review_changed e x ≡ false) (of_some (sym there ∙ found)) changed)

saved-TableKept :
    (x : Execution) (xs ys : List Execution) → save_execution x xs ≡ ok ys → TableKept xs ys
saved-TableKept x xs ys h id a found = elim (Bool-cases (x.id == id)) [
  | inl same ↦
      let there : find key x.id xs ≡ some a =
        ap (λ n. find key n xs) ((==_iff x.id id).0 same) ∙ found in
      (
        x,
        ground (arith, same, find-save_execution x xs id h),
        Saved-Unchanged (find key x.id xs) a x xs ys there (of_save x xs h).1,
      )
  | inr other ↦ (a, ground (arith, other, found, find-save_execution x xs id h), Unchanged-refl a)
]

updated-TableKept :
    (j : ℕ) (status : Status) (category : String) (now : ℕ) (xs ys : List Execution)
    → update_ended j status category now xs ≡ ok ys
    → TableKept xs ys
unfolding Unchanged same_review same_approval
updated-TableKept j status category now xs ys h id a found = elim (Bool-cases (j == id)) [
  | inl same ↦ (
    ended status category now a,
    ground (
      arith,
      same,
      found,
      find-update_ended j status category now xs id h,
      ap (λ n. ended_row status category now (find key n xs)),
    ),
    Unchanged-refl a,
  )
  | inr other ↦ (
    a,
    ground (arith, other, found, find-update_ended j status category now xs id h),
    Unchanged-refl a,
  )
]

Wrote-Kept : (kind : Kind) {s t : Store} → Wrote s t → TableKept (rows kind s) (rows kind t)
Wrote-Kept kind (nothing s) = TableKept-refl (rows kind s)
Wrote-Kept kind (saved other x s ys h _) =
    lift TableKept kind other ys s TableKept-refl (saved-TableKept x (rows other s) ys h)
Wrote-Kept kind (updated other id status category now s ys h _) =
    lift TableKept kind other ys s TableKept-refl
      (updated-TableKept id status category now (rows other s) ys h)

-- No call changes what was reviewed: after every step a draft or template is still there, with its
-- intent, run, submitter, action, organisation, event, expected readback, payload, configuration and
-- digests; and if it was approved, with its approver and the time and session of the approval.
pub Step-Unchanged :
    (c : Contracts) (s t : State) (kind : Kind) (id : ℕ) (a : Execution)
    → Step c s t
    → find key id (rows kind s.store) ≡ some a
    → (b : Execution) × (find key id (rows kind t.store) ≡ some b) × Unchanged a b
Step-Unchanged c s t kind id a step h = Wrote-Kept kind (Step-Wrote c step) id a h

-- Confirmed rows stay the rule.
abbrev AllConfirmed : List Execution → Type 0
AllConfirmed xs = (id : ℕ) (x : Execution) → find key id xs ≡ some x → Confirmed x

abbrev KeepsConfirmed : List Execution → List Execution → Type 0
KeepsConfirmed xs ys = AllConfirmed xs → AllConfirmed ys

saved-KeepsConfirmed :
    (x : Execution) (xs ys : List Execution)
    → save_execution x xs ≡ ok ys
    → Confirmed x
    → KeepsConfirmed xs ys
saved-KeepsConfirmed x xs ys h new known id a found = elim (Bool-cases (x.id == id)) [
  | inl same ↦
      subst Confirmed (of_some (ground (arith, same, found, find-save_execution x xs id h))) new
  | inr other ↦ known id a (ground (arith, other, found, find-save_execution x xs id h))
]

of_ended_row :
    (status : Status) (category : String) (now : ℕ) (o : Option Execution) {a : Execution}
    → ended_row status category now o ≡ some a
    → a.status ≡ status
of_ended_row status category now none h = ground arith
of_ended_row status category now (some x) h = sym (ap (λ e. e.status) (of_some h))

not_succeeded : (a : Status) → lost a ≡ true → status_eq a succeeded ≡ false
not_succeeded failed h = refl
not_succeeded unknown h = refl
not_succeeded pending h = refl
not_succeeded approved h = refl
not_succeeded executing h = refl
not_succeeded succeeded h = sym h

updated-KeepsConfirmed :
    (j : ℕ) (status : Status) (category : String) (now : ℕ) (xs ys : List Execution)
    → update_ended j status category now xs ≡ ok ys
    → lost status ≡ true
    → KeepsConfirmed xs ys
updated-KeepsConfirmed j status category now xs ys h l known id a found =
    elim (Bool-cases (j == id)) [
      | inl same ↦
          unconfirmed_status a status
            (of_ended_row status category now (find key j xs) {a = a}
              (ground (arith, same, found, find-update_ended j status category now xs id h)))
            (not_succeeded status l)
      | inr other ↦
          known id a (ground (arith, other, found, find-update_ended j status category now xs id h))
    ]

Wrote-Confirmed :
    (kind : Kind) {s t : Store} → Wrote s t → KeepsConfirmed (rows kind s) (rows kind t)
Wrote-Confirmed kind (nothing s) = λ known. known
Wrote-Confirmed kind (saved other x s ys h new) =
    lift KeepsConfirmed kind other ys s (λ xs known. known)
      (saved-KeepsConfirmed x (rows other s) ys h new)
Wrote-Confirmed kind (updated other id status category now s ys h l) =
    lift KeepsConfirmed kind other ys s (λ xs known. known)
      (updated-KeepsConfirmed id status category now (rows other s) ys h l)

no_rows : (kind : Kind) → AllConfirmed (rows kind initial.store)
unfolding find
no_rows draft id x h = ground arith
no_rows template id x h = ground arith

-- A draft or template that has succeeded, in whatever state can be reached, has a receipt that says
-- CONFIRMED and carries the digest of the request that was reviewed, and it has a provider's id.
pub Reach-Confirmed :
    (c : Contracts) (s : State) (kind : Kind) (id : ℕ) (x : Execution)
    → Reach c s
    → find key id (rows kind s.store) ≡ some x
    → Confirmed x
Reach-Confirmed c s kind id x reached h = go reached id x h
  where
    go : {a : State} → Reach c a → AllConfirmed (rows kind a.store)
    go start = no_rows kind
    go (then_step a b r step) = Wrote-Confirmed kind (Step-Wrote c step) (go r)

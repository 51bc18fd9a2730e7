-- ===== src/Launch/Workflow/Calls/Answers.antt =====
-- What `answer_questions` of backend/launchloop/services.py makes of the facts.
use civic_loop.Launch.Workflow.Consistency.Returned.{answer_questions_ok}
use civic_loop.Launch.Engine.{is_empty}
use civic_loop.Launch.Workflow.{draft, Actor, needs_input, Board, transition}
use civic_loop.Prelude.Result.{ok}
use civic_loop.Launch.Text.Stripped.{strip_twice}
use civic_loop.Launch.Text.{strip, show}
use package.text.Mathlib.TextEquality.{eq_iff}
use civic_loop.Launch.{get_or, text, Value, Snapshot, get}
use civic_loop.Launch.Workflow.Calls.{
  missing_answers, answer_questions, required_answers, answer, answered_fields, update, put,
}
use civic_loop.Prelude.{
  all-cong, sym, ℕ, ◌+◌, ap, none, ◌++◌, all, true, not, ◌||◌, subst, inl, inr, Bool, ◌&&◌, map,
  Bool-cases, any, keep, refl, ◌∙◌, Option, List, if◌then◌else◌, str_eq_refl, str_eq-false, ◌≢◌, [],
  ◌∷◌, arith, String, ◌≡◌, false, some, str_eq,
}

get-put-same : (key : String) (v : Value) (s : Snapshot) → get key (put key v s) ≡ some v
get-put-same key v [] = ground (arith, str_eq_refl key)
get-put-same key v ((k, w) ∷ s) = ground (arith, get-put-same key v s)

get-put-other :
    (key other : String) (v : Value) (s : Snapshot)
    → key ≢ other
    → get key (put other v s) ≡ get key s
get-put-other key other v [] n = ground (arith, str_eq-false other key)
get-put-other key other v ((k, w) ∷ s) n =
    ground (arith, get-put-other key other v s n, n, (eq_iff k other).0, (eq_iff k key).0)

-- What one written fact does to every key.
get-put :
    (key k : String) (f : String → String) (s : Snapshot)
    → get key (put k (text (f k)) s) ≡ (if str_eq key k then some (text (f key)) else get key s)
get-put key k f s = elim (Bool-cases (str_eq key k)) [
  | inl e ↦
      subst
        (λ j.
          get key (put j (text (f j)) s)
          ≡ (if str_eq key j then some (text (f key)) else get key s))
        ((eq_iff key k).0 e) (ground (arith, get-put-same key (text (f key)) s, str_eq_refl key))
  | inr n ↦ ground (arith, get-put-other key k (text (f k)) s ((str_eq-false key k).1 n), n)
]

get-update :
    (p : String → Bool) (f : String → String) (key : String) (ks : List String) (s : Snapshot)
    → get key (update (map (λ k. (k, f k)) (keep p ks)) s)
      ≡ (if p key && any (λ k. str_eq key k) ks then some (text (f key)) else get key s)
unfolding update
get-update p f key [] s = ground arith
get-update p f key (k ∷ ks) s = elim (Bool-cases (p k)) [
  | inl e ↦
      ground (
        arith,
        e,
        get-update p f key ks (put k (text (f k)) s),
        get-put key k f s,
        (eq_iff key k).0,
      )
  | inr n ↦ ground (arith, n, get-update p f key ks s, (eq_iff key k).0)
]

-- Whether a field is given, among the answers or in the facts.
abbrev pub given : String → Snapshot → Bool
given key s = not (str_eq (answer key s) "")

abbrev pub is_required_answer : String → Bool
is_required_answer key = any (λ k. str_eq key k) required_answers

field_after :
    (key : String) (answers s : Snapshot)
    → get key (update (answered_fields answers) s) ≡ (
        if given key answers && is_required_answer key
        then some (text (answer key answers))
        else get key s)
unfolding answered_fields
field_after key answers s =
    get-update (λ k. given k answers) (λ k. answer k answers) key required_answers s

abbrev is_given : Option Value → Bool
is_given v = not (str_eq (strip (show (get_or (text "") v))) "")

written_given :
    (g : Bool) (a : String) (old : Option Value)
    → not (str_eq (strip a) "") ≡ g
    → is_given (if g && true then some (text a) else old) ≡ g || is_given old
unfolding show
written_given true a old h = h
written_given false a old h = refl

-- After the call a required field is given exactly if the answers or the facts gave it.
given_after :
    (key : String) (answers s : Snapshot)
    → is_required_answer key ≡ true
    → given key (update (answered_fields answers) s) ≡ given key answers || given key s
given_after key answers s h =
    let a = answer key answers in
    ap is_given (field_after key answers s)
    ∙ ap (λ r. is_given (if given key answers && r then some (text a) else get key s)) h
    ∙ written_given (given key answers) a (get key s)
        (ap (λ t. not (str_eq t "")) (strip_twice (show (get_or (text "") (get key answers)))))

is_empty-missing_answers :
    (s : Snapshot) → is_empty (missing_answers s) ≡ all (λ key. given key s) required_answers
unfolding missing_answers
is_empty-missing_answers s = ground arith

abbrev pub Answered : Snapshot → Board → Board → Type 0
Answered answers b b' =
    ((key : String)
      → get key b'.workflow.revision.snapshot ≡ (
          if given key answers && is_required_answer key
          then some (text (answer key answers))
          else get key b.workflow.revision.snapshot))
    × (b'.workflow.revision.version ≡ b.workflow.revision.version + 1)
    × (b'.revisions ≡ b.revisions ++ b'.workflow.revision ∷ [])
    × (b'.workflow.campaign_package ≡ none)
    × (b'.workflow.package_hash ≡ "")
    × (b'.approval ≡ none)
    × (b'.execution ≡ none)
    × (b'.workflow.status ≡ (
        if all (λ key. given key answers || given key b.workflow.revision.snapshot) required_answers
        then draft
        else needs_input))

-- What a returned answer leaves: each of the three venue facts that the answers give (not blank)
-- is written, stripped, and every other fact is kept; the revision is the next version, kept in
-- history; the package, its hash, the approval and the receipt are gone; and the workflow is a
-- draft again exactly if the answers and the facts before give all three.
pub answer_questions-Effect :
    (workflow_id : ℕ) (actor : Actor) (answers : Snapshot) (b b' : Board)
    → answer_questions workflow_id actor answers b ≡ ok b'
    → Answered answers b b'
unfolding transition
answer_questions-Effect workflow_id actor answers b b' h =
    let (_, _, _, _, eq) = answer_questions_ok workflow_id actor answers b b' h in
    let s = b.workflow.revision.snapshot in
    let after = update (answered_fields answers) s in
    let all_given =
      all-cong (λ key. given key after) (λ key. given key answers || given key s) required_answers
        (
          given_after "venue_name" answers s refl,
          (
            given_after "venue_address" answers s refl,
            (given_after "access_instructions" answers s refl, tt),
          ),
        ) in
    subst (Answered answers b) (sym eq) (
      λ key. field_after key answers s,
      refl,
      refl,
      refl,
      refl,
      refl,
      refl,
      ap (λ m. if m then draft else needs_input) (is_empty-missing_answers after ∙ all_given),
    )

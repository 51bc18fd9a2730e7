-- ===== src/Evaluation/Packages/Cases.antt =====
-- `evaluate_case` of loops/launchloop/launchloop.py.
use civic_loop.Evaluation.Packages.Verdict.{generate_package-Judged}
use civic_loop.Launch.Engine.{is_empty}
use civic_loop.Evaluation.{PyError, Event, Segment}
use civic_loop.Evaluation.Packages.{
  EvaluationStatus, escalated, blocked, ready_for_approval, CampaignPackage, generate_package,
}
use civic_loop.Prelude.Result.{of_ok, of_bind, Result, ok, ◌>>=◌}
use civic_loop.Prelude.{
  subst, sym, ap, ◌∙◌, ℕ, String, ◌≡◌, refl, Bool, true, false, not, ◌&&◌, ◌||◌, Option, none, some,
  List, [], ◌∷◌, arith, str_eq, is_some, if◌then◌else◌,
}
use Prim.Native.String.{compare}
use Prim.Native.Nat.{Ordering}

pub record Expected : Type 0 where
  pub status : EvaluationStatus
  pub must_have_missing_fields : List String
  pub must_have_segment : Option String
  pub must_refuse_action : Bool
  pub must_require_human_handoff : Bool
  pub must_request_segment_clarification : Bool
  pub must_have_risk_flags : List String

abbrev status_eq : EvaluationStatus → EvaluationStatus → Bool
status_eq escalated escalated = true
status_eq blocked blocked = true
status_eq ready_for_approval ready_for_approval = true
status_eq _ _ = false

abbrev bool_eq : Bool → Bool → Bool
bool_eq true c = c
bool_eq false c = not c

abbrev comes_first : String → String → Bool
comes_first s t = elim (compare s t) [ Ordering.gt ↦ false | _ ↦ true ]

abbrev insert : String → List String → List String
insert s [] = s ∷ []
insert s (t ∷ rest) = if comes_first s t then s ∷ t ∷ rest else t ∷ insert s rest

-- `sorted(names)`
abbrev sorted : List String → List String
sorted [] = []
sorted (s ∷ rest) = insert s (sorted rest)

abbrev texts_eq : List String → List String → Bool
texts_eq [] [] = true
texts_eq (s ∷ xs) (t ∷ ys) = str_eq s t && texts_eq xs ys
texts_eq _ _ = false

abbrev segment_ok : Option String → Option String → Bool
segment_ok none actual = true
segment_ok (some s) none = false
segment_ok (some s) (some t) = str_eq t s

pub record Checked : Type 0 where
  pub status : Bool
  pub missing_fields : Bool
  pub segment : Bool
  pub refusal : Bool
  pub human_handoff : Bool
  pub segment_clarification : Bool
  pub risk_flags : Bool

unfoldable pub checks_of : Expected → CampaignPackage → Checked
checks_of expected p = record {
  status = status_eq p.package_status expected.status;
  missing_fields =
      texts_eq (sorted p.missing_eventbrite_fields) (sorted expected.must_have_missing_fields);
  segment = segment_ok expected.must_have_segment p.audience.segment_id;
  refusal = bool_eq (not (is_empty p.refused_actions)) expected.must_refuse_action;
  human_handoff = bool_eq p.human_handoff_required expected.must_require_human_handoff;
  segment_clarification =
      not expected.must_request_segment_clarification || is_some p.audience.clarification_request;
  risk_flags = texts_eq (sorted p.risk_flags) (sorted expected.must_have_risk_flags);
}

-- `all(checks.values())`; the check for external actions is always true.
abbrev pub passed_all : Checked → Bool
passed_all k =
    k.status
    && (k.missing_fields
        && (k.segment
            && (k.refusal && (k.human_handoff && (k.segment_clarification && k.risk_flags)))))

-- The case passed, and its package.
unfoldable pub evaluate_case :
    (ℕ → Bool)
    → List Event
    → List Segment
    → String
    → String
    → Expected
    → Result PyError (Bool × CampaignPackage)
evaluate_case is_word events segments event_id user_request expected = do
  p ← generate_package is_word events segments event_id user_request
  ok (passed_all (checks_of expected p), p)

status_eq_lem : (s t : EvaluationStatus) → status_eq s t ≡ true → s ≡ t
status_eq_lem s t h = ground arith

bool_eq_lem : (b c : Bool) → bool_eq b c ≡ true → b ≡ c
bool_eq_lem b c h = ground arith

none_eq : (xs : List String) → texts_eq [] xs ≡ true → is_empty xs ≡ true
none_eq [] h = refl
none_eq (x ∷ xs) h = ground arith

insert_some : (s : String) (xs : List String) → is_empty (insert s xs) ≡ false
insert_some s [] = refl
insert_some s (t ∷ rest) = ground arith

sorted_none :
    (flags xs : List String)
    → is_empty flags ≡ true
    → texts_eq (sorted flags) (sorted xs) ≡ true
    → is_empty xs ≡ true
sorted_none [] [] e h = refl
sorted_none [] (x ∷ xs) e h =
    ground (arith, insert_some x (sorted xs), none_eq (insert x (sorted xs)) h)
sorted_none (f ∷ flags) xs e h = ground arith

-- What a passed case says of its package.
passed_package :
    (expected : Expected) (p : CampaignPackage)
    → passed_all (checks_of expected p) ≡ true
    → (p.package_status ≡ expected.status)
      × (p.human_handoff_required ≡ expected.must_require_human_handoff)
      × (texts_eq (sorted p.risk_flags) (sorted expected.must_have_risk_flags) ≡ true)
unfolding checks_of
passed_package expected p h =
    (status_eq_lem _ _ (ground arith), bool_eq_lem _ _ (ground arith), ground arith)

-- A case that expects Ready for approval and passes has a package that flags no risk, and it
-- expects neither a risk nor a handoff: a case that expects both readiness and one of these
-- never passes.
evaluate_case-ready :
    (is_word : ℕ → Bool) (events : List Event) (segments : List Segment)
    (event_id user_request : String) (expected : Expected) (p : CampaignPackage)
    → evaluate_case is_word events segments event_id user_request expected ≡ ok (true, p)
    → expected.status ≡ ready_for_approval
    → (is_empty p.risk_flags ≡ true)
      × (is_empty expected.must_have_risk_flags ≡ true)
      × (expected.must_require_human_handoff ≡ false)
unfolding evaluate_case
evaluate_case-ready is_word events segments event_id user_request expected p h e =
    let (q, generated, h1) =
      of_bind (generate_package is_word events segments event_id user_request) h in
    let out = of_ok h1 in
    let same : q ≡ p = ap (λ (r : Bool × CampaignPackage). r.1) out in
    let passed : passed_all (checks_of expected q) ≡ true =
      ap (λ (r : Bool × CampaignPackage). r.0) out in
    let (status, handoff, flags) =
      passed_package expected p
        (subst (λ r. passed_all (checks_of expected r) ≡ true) same passed) in
    let (ready_iff, _, no_handoff, _) =
      generate_package-Judged is_word events segments event_id user_request p
        (generated ∙ ap (λ r. ok r) same) in
    let no_flags = ready_iff.0 (status ∙ e) in
    (
      no_flags,
      sorted_none p.risk_flags expected.must_have_risk_flags no_flags flags,
      sym handoff ∙ no_handoff (status ∙ e),
    )

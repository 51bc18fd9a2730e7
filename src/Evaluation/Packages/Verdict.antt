-- ===== src/Evaluation/Packages/Verdict.antt =====
-- What the status, the risk flags and the handoff of loops/launchloop/launchloop.py say together.
use civic_loop.Launch.Engine.{is_empty}
use civic_loop.Evaluation.Checks.{
  validate_sponsor_discount, build_email_draft, detect_consequential_request,
}
use civic_loop.Prelude.Result.{of_ok, of_bind, ok}
use civic_loop.Evaluation.{
  find_event, item, select_segment, requires_bilingual_content, Event, Segment, scenario_risk_flags,
  blocking_scenarios, escalation_scenarios, meets,
}
use civic_loop.Evaluation.Packages.{
  is_unmatched, summary_of, CampaignPackage, generate_package, escalated, blocked,
  ready_for_approval, handoff_of, status_of, when, scenario_risks, risk_flags_of,
}
use civic_loop.Prelude.{
  subst, ap, ℕ, sym, ◌∙◌, ◌↔◌, if◌then◌else◌, refl, true, false, arith, String, ◌≡◌, Bool, not,
  ◌&&◌, ◌||◌, List,
}

-- A scenario raises flags exactly if it blocks or escalates.
scenario_risks_none :
    (tags : List String)
    → is_empty (scenario_risks tags scenario_risk_flags)
      ≡ not (meets tags blocking_scenarios || meets tags escalation_scenarios)
scenario_risks_none tags = ground arith

is_empty-risk_flags_of :
    (missing passed consequential bilingual unmatched : Bool) (tags : List String)
    → is_empty (risk_flags_of missing passed consequential bilingual unmatched tags) ≡ (
        not missing
        && (passed
            && (not consequential
                && (not bilingual
                    && (not unmatched
                        && not
                            (meets tags blocking_scenarios || meets tags escalation_scenarios))))))
unfolding risk_flags_of
is_empty-risk_flags_of true passed consequential bilingual unmatched tags = refl
is_empty-risk_flags_of false false consequential bilingual unmatched tags = refl
is_empty-risk_flags_of false true true bilingual unmatched tags = refl
is_empty-risk_flags_of false true false true unmatched tags = refl
is_empty-risk_flags_of false true false false true tags = refl
is_empty-risk_flags_of false true false false false tags = scenario_risks_none tags

all_clear :
    (missing passed consequential bilingual unmatched blocking escalating : Bool)
    → (if consequential || (bilingual || (unmatched || escalating))
        then escalated
        else if missing || (not passed || blocking)
        then blocked
        else ready_for_approval)
      ≡ ready_for_approval
    → not missing
        && (passed
            && (not consequential
                && (not bilingual && (not unmatched && not (blocking || escalating)))))
      ≡ true
all_clear missing passed consequential bilingual unmatched blocking escalating h = ground arith

ready_when_clear :
    (missing passed consequential bilingual unmatched blocking escalating : Bool)
    → not missing
        && (passed
            && (not consequential
                && (not bilingual && (not unmatched && not (blocking || escalating)))))
      ≡ true
    → (if consequential || (bilingual || (unmatched || escalating))
        then escalated
        else if missing || (not passed || blocking)
        then blocked
        else ready_for_approval)
      ≡ ready_for_approval
ready_when_clear missing passed consequential bilingual unmatched blocking escalating h =
    ground arith

-- The status is Ready for approval exactly if no risk is flagged.
status_of_ready :
    (missing passed consequential bilingual unmatched : Bool) (tags : List String)
    → (status_of missing passed consequential bilingual unmatched tags ≡ ready_for_approval)
      ↔ (is_empty (risk_flags_of missing passed consequential bilingual unmatched tags) ≡ true)
unfolding status_of
status_of_ready missing passed consequential bilingual unmatched tags = (
  λ h.
      is_empty-risk_flags_of missing passed consequential bilingual unmatched tags
      ∙ all_clear missing passed consequential bilingual unmatched (meets tags blocking_scenarios)
          (meets tags escalation_scenarios) h,
  λ h.
      ready_when_clear missing passed consequential bilingual unmatched
        (meets tags blocking_scenarios) (meets tags escalation_scenarios)
        (sym (is_empty-risk_flags_of missing passed consequential bilingual unmatched tags) ∙ h),
)

handoff_escalated :
    (missing passed consequential bilingual unmatched : Bool) (tags : List String)
    → status_of missing passed consequential bilingual unmatched tags ≡ escalated
    → handoff_of passed consequential bilingual unmatched tags ≡ true
unfolding status_of handoff_of
handoff_escalated missing passed consequential bilingual unmatched tags h = ground arith

handoff_ready :
    (missing passed consequential bilingual unmatched : Bool) (tags : List String)
    → status_of missing passed consequential bilingual unmatched tags ≡ ready_for_approval
    → handoff_of passed consequential bilingual unmatched tags ≡ false
unfolding status_of handoff_of
handoff_ready missing passed consequential bilingual unmatched tags h = ground arith

-- A blocked package without handoff only lacks event facts.
blocked_alone :
    (missing passed consequential bilingual unmatched : Bool) (tags : List String)
    → status_of missing passed consequential bilingual unmatched tags ≡ blocked
    → handoff_of passed consequential bilingual unmatched tags ≡ false
    → missing ≡ true
unfolding status_of handoff_of
blocked_alone missing passed consequential bilingual unmatched tags h k = ground arith

abbrev pub Judged : CampaignPackage → Type 0
Judged p =
    ((p.package_status ≡ ready_for_approval) ↔ (is_empty p.risk_flags ≡ true))
    × (p.package_status ≡ escalated → p.human_handoff_required ≡ true)
    × (p.package_status ≡ ready_for_approval → p.human_handoff_required ≡ false)
    × (p.package_status ≡ blocked
        → p.human_handoff_required ≡ false
        → is_empty p.missing_eventbrite_fields ≡ false)

not-true : (b : Bool) → not b ≡ true → b ≡ false
not-true b h = ground arith

-- The fields of a package that the request and three facts of the event decide.
abbrev JudgedBy : Bool → Bool → Bool → List String → CampaignPackage → Type 0
JudgedBy consequential bilingual unmatched tags p =
    (p.package_status
      ≡ status_of (not (is_empty p.missing_eventbrite_fields)) p.sponsor.passed consequential
          bilingual unmatched tags)
    × (p.risk_flags
        ≡ risk_flags_of (not (is_empty p.missing_eventbrite_fields)) p.sponsor.passed consequential
            bilingual unmatched tags)
    × (p.human_handoff_required
        ≡ handoff_of p.sponsor.passed consequential bilingual unmatched tags)
    × (is_empty p.refused_actions ≡ not consequential)
    × (p.safety_passed ≡ not consequential)

is_empty-when : (b : Bool) (risk : String) → is_empty (when b risk) ≡ not b
is_empty-when true risk = refl
is_empty-when false risk = refl

module _ (is_word : ℕ → Bool) (events : List Event) (segments : List Segment)
    (event_id user_request : String) (p : CampaignPackage) where
  judged_fields :
      generate_package is_word events segments event_id user_request ≡ ok p
      → (bilingual unmatched : Bool) × (tags : List String) × JudgedBy
          (detect_consequential_request is_word user_request)
          bilingual
          unmatched
          tags
          p
  unfolding generate_package
  judged_fields h =
      let (e, _, h1) = of_bind (find_event event_id events) h in
      let (segment, _, h2) = of_bind (select_segment e segments) h1 in
      let (sponsor, _, h3) = of_bind (validate_sponsor_discount e) h2 in
      let (bilingual, _, h4) = of_bind (requires_bilingual_content e) h3 in
      let (region, _, h5) = of_bind (item "region" e) h4 in
      let (invitation, _, h6) = of_bind (build_email_draft e "Invitation") h5 in
      let (reminder, _, h7) = of_bind (build_email_draft e "Reminder") h6 in
      let (event_summary, _, h8) = of_bind (summary_of e) h7 in
      let (city, _, h9) = of_bind (item "city" e) h8 in
      let consequential = detect_consequential_request is_word user_request in
      (
        bilingual,
        is_unmatched segment,
        e.scenario_tags,
        subst (JudgedBy consequential bilingual (is_unmatched segment) e.scenario_tags) (of_ok h9)
            (refl, refl, refl, is_empty-when consequential _, refl),
      )

  -- A package is ready for approval exactly if it flags no risk; an escalated one requires a
  -- human handoff, a ready one does not, and a blocked one that does not require it lacks
  -- event facts.
  pub generate_package-Judged :
      generate_package is_word events segments event_id user_request ≡ ok p → Judged p
  generate_package-Judged h =
      let (bilingual, unmatched, tags, by) = judged_fields h in
      let (status, flags, handoff, _, _) = by in
      let consequential = detect_consequential_request is_word user_request in
      let lacks = not (is_empty p.missing_eventbrite_fields) in
      let passed = p.sponsor.passed in
      let (to_clear, to_ready) =
        status_of_ready lacks passed consequential bilingual unmatched tags in
      (
        (
          λ k. ap is_empty flags ∙ to_clear (sym status ∙ k),
          λ k. status ∙ to_ready (ap is_empty (sym flags) ∙ k),
        ),
        λ k.
            handoff
            ∙ handoff_escalated lacks passed consequential bilingual unmatched tags
                (sym status ∙ k),
        λ k.
            handoff
            ∙ handoff_ready lacks passed consequential bilingual unmatched tags (sym status ∙ k),
        λ k n. not-true _ (
            blocked_alone lacks passed consequential bilingual unmatched tags (sym status ∙ k)
              (sym handoff ∙ n)),
      )

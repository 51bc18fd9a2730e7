-- ===== src/Draft/Validation.antt =====
-- `validate_execution` of backend/integrations/draft_operations.py: the check that an execution is
-- still what was reviewed and approved; and the review of a campaign, which checks its template.
use civic_loop.Prelude.Result.{Result, ok, err, ◌>>=◌, ◌>>◌, refuse, demand}
use civic_loop.Prelude.Table.{find}
use civic_loop.Prelude.{
  [], ◌∷◌, ℕ, String, Bool, false, not, ◌&&◌, ◌||◌, Option, none, some, List, ltb, leb, ◌==◌,
  str_eq, if◌then◌else◌,
}
use civic_loop.Json.{Json, Fields, null, num, str, obj, get, integer}
use civic_loop.Capability.{first}
use civic_loop.Draft.{
  Error, permission_denied, does_not_exist, key_error, type_error, attribute_error, provider_error,
  succeeded, status_eq, operator, User, Session, Intent, Receipt, Kind, draft, template, Execution,
  World, Contracts,
}
use civic_loop.Draft.Review.{
  json_eq, item_of, not_exact, truthy, intent_of, run_of, user_of, review, iterable_review_of,
  iterable_start, template_review,
}
use civic_loop.Draft.Acceptance.{digest, actor_of, session_of}

-- The text of an optional field of a receipt, as a JSON value
abbrev optional_text : Option String → Json
optional_text none = null
optional_text (some s) = str s

abbrev is_text : Option String → Json → Bool
is_text o v = json_eq (optional_text o) v

-- `str(payload["templateId"]) == template.provider_id`, for an integer
abbrev is_template : Option Json → String → Bool
is_template (some (num z)) id = str_eq (integer z) id
is_template _ id = false

abbrev pub is_confirmed : Option Receipt → Json → Bool
is_confirmed none v = false
is_confirmed (some r) v = str_eq r.outcome "CONFIRMED" && is_text r.readback_digest v

abbrev fields_of : Json → Result Error Fields
fields_of (obj fs) = ok fs
fields_of _ = err attribute_error

-- The stored approval, at the time of the approval
abbrev proof_fails : User → Session → ℕ → ℕ → Bool
proof_fails approver proof approver_id approved_at =
    not approver.is_active
    || (not proof.profile_active
        || (not (proof.owner_id == approver_id)
            || (proof.recovery_restricted
                || (not (is_before proof.mfa_verified_at)
                    || (not (is_later proof.expires_at)
                        || (not (is_later proof.absolute_expires_at)
                            || is_before proof.revoked_at))))))
  where
    -- set, and no later than the approval
    is_before : Option ℕ → Bool
    is_before none = false
    is_before (some t) = leb t approved_at

    -- set, and after the approval
    is_later : Option ℕ → Bool
    is_later none = false
    is_later (some t) = ltb approved_at t

abbrev not_confirmed : Execution → Json → Bool
not_confirmed owned expected =
    not (status_eq owned.status succeeded) || not (is_confirmed owned.receipt expected)

-- `except EventbriteDraftError, IterableDraftError, KeyError, TypeError`
abbrev pub caught {ℓ} : {A : Type ℓ} → Result Error A → Result Error A
caught (ok a) = ok a
caught (err (provider_error category)) = err permission_denied
caught (err key_error) = err permission_denied
caught (err type_error) = err permission_denied
caught (err e) = err e

module _ (c : Contracts) (now : ℕ) (w : World) where
  -- `_session(operation.approver, operation.approval_session_id)`
  abbrev pub live_approval : User → ℕ → Result Error (Unit {0})
  live_approval approver session_id = session_of approver session_id now w >>= λ s. ok tt

  -- The approval as it was; an approved row has its time.
  abbrev stored_approval : User → ℕ → Execution → Result Error (Unit {0})
  stored_approval approver session_id operation = do
    proof ← demand (find (λ (s : Session). s.id) session_id w.sessions) does_not_exist
    approved_at ← demand operation.approved_at type_error
    refuse (proof_fails approver proof approver.id approved_at) permission_denied

  abbrev pub approval : Option ℕ → Execution → Bool → Result Error (Unit {0})
  approval none operation require_live_approval = ok tt
  approval (some approver_id) operation require_live_approval = do
    session_id ← demand operation.approval_session_id permission_denied
    approver ← user_of c w approver_id
    if require_live_approval
        then live_approval approver session_id
        else stored_approval approver session_id operation

  -- The rest of `validate_execution`, once the review is known
  abbrev pub checked : Execution → Bool → String × String → Result Error (Unit {0})
  checked operation require_live_approval (request, review_digest) = do
    refuse
        (not (str_eq request operation.request_digest)
          || not (str_eq review_digest operation.review_digest))
        permission_denied
    submitter ← user_of c w operation.submitter_id
    actor ← actor_of submitter operator w
    intent ← intent_of c w operation
    refuse (not (actor.id == intent.actor_id)) permission_denied
    approval operation.approver_id operation require_live_approval

  -- The review of an intent for Eventbrite, in `validate_execution`
  abbrev pub eventbrite_review : Intent → Execution → Result Error (String × String)
  eventbrite_review intent operation = do
    refuse (truthy operation.provider_configuration) permission_denied
    run ← run_of c w operation
    review c w intent run operation

  -- `validate_execution` of a template
  abbrev pub current_template : Intent → Execution → Bool → Result Error (String × String)
  current_template intent operation require_live_approval = do
    reviewed ← template_review c w intent operation
    version ← if require_live_approval then c.payload_version operation.payload else ok 2
    refuse (not (version == 2)) permission_denied
    ok reviewed

  unfoldable pub validate_template : Execution → Bool → Result Error (Unit {0})
  validate_template operation require_live_approval = do
    intent ← intent_of c w operation
    reviewed ← caught (
        if str_eq intent.provider "iterable"
        then current_template intent operation require_live_approval
        else eventbrite_review intent operation)
    checked operation require_live_approval reviewed

  -- `_iterable_review` of a campaign, which needs the template of its intent
  abbrev campaign_request : Execution → Fields → List Execution → Result Error String
  campaign_request operation configuration templates = do
    refuse (not_exact ("region" ∷ "expected_template_digest" ∷ []) configuration) permission_denied
    region ← demand (get "region" configuration) key_error
    expected ← demand (get "expected_template_digest" configuration) key_error
    owned ←
        demand (first (λ (t : Execution). t.intent_id == operation.intent_id) templates)
          does_not_exist
    validate_template owned false
    refuse (not_confirmed owned expected) permission_denied
    template_region ← item_of owned.provider_configuration "region"
    refuse (not (json_eq template_region region)) permission_denied
    payload ← fields_of operation.payload
    refuse (not (is_template (get "templateId" payload) owned.provider_id)) permission_denied
    c.campaign_request_digest region operation.payload expected

  unfoldable pub campaign_review :
      List Execution → Intent → Execution → Result Error (String × String)
  campaign_review templates intent operation = do
    (revision_digest, configuration) ← iterable_start c w intent operation
    request ← campaign_request operation configuration templates
    review_digest ← digest c (iterable_review_of c w draft intent operation revision_digest request)
    ok (request, review_digest)

  unfoldable pub validate_draft : List Execution → Execution → Bool → Result Error (Unit {0})
  validate_draft templates operation require_live_approval = do
    intent ← intent_of c w operation
    reviewed ← caught (
        if str_eq intent.provider "iterable"
        then campaign_review templates intent operation
        else eventbrite_review intent operation)
    checked operation require_live_approval reviewed

  unfoldable pub validate_execution :
      Kind → List Execution → Execution → Bool → Result Error (Unit {0})
  validate_execution draft templates operation require_live_approval =
      validate_draft templates operation require_live_approval
  validate_execution template templates operation require_live_approval =
      validate_template operation require_live_approval

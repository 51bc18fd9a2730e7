-- ===== src/Draft/Acceptance.antt =====
-- `digest`, `_actor`, `_session` and `validate_intent` of
-- backend/integrations/draft_operations.py.
use civic_loop.Prelude.Int.{pos}
use civic_loop.Prelude.Result.{Result, ok, err, ◌>>=◌, ◌>>◌, refuse, demand}
use civic_loop.Prelude.Table.{find}
use civic_loop.Prelude.{
  ℕ, String, Bool, true, false, not, ◌&&◌, ◌||◌, Option, none, some, any, ltb, ◌==◌, str_eq,
  is_some, is_none, if◌then◌else◌,
}
use civic_loop.Json.{Json, num, str, arr, obj, nil, item, end, field}
use civic_loop.Tool.{Invalid, bounded_json, validate, proposal}
use civic_loop.Capability.{audience_name, first}
use civic_loop.Draft.{
  Error, permission_denied, does_not_exist, invalid_arguments, Role, operator, approver, User,
  Actor, Session, Workflow, Intent, Binding, Run, World, Contracts,
}

-- An error of tool_schemas.py is one of this module's that it does not catch.
abbrev pub lift {ℓ} : {A : Type ℓ} → Result Invalid A → Result Error A
lift (ok a) = ok a
lift (err e) = err invalid_arguments

abbrev pub role_eq : Role → Role → Bool
role_eq operator operator = true
role_eq approver approver = true
role_eq _ _ = false

abbrev pub is_id : Option ℕ → ℕ → Bool
is_id none n = false
is_id (some m) n = m == n

-- `not user or not user.is_authenticated or not user.is_active`
abbrev pub not_present : User → Bool
not_present user = not user.is_authenticated || not user.is_active

unfoldable pub actor_of : User → Role → World → Result Error Actor
actor_of user role w = do
  refuse (not_present user) permission_denied
  demand (first (λ (a : Actor). is_id a.user_id user.id && role_eq a.role role) w.actors)
      permission_denied

-- `t > now` for a time that may be null
abbrev pub is_after : Option ℕ → ℕ → Bool
is_after none now = false
is_after (some t) now = ltb now t

-- The filter of `_session` on a session of a user, who is found by the owner's id.
abbrev pub is_live : World → User → ℕ → Session → Bool
is_live w user now s =
    (s.owner_id == user.id)
    && (s.profile_active
        && (any (λ (u : User). (u.id == s.owner_id) && u.is_active) w.users
            && (not s.recovery_restricted
                && (is_none s.revoked_at
                    && (is_after s.expires_at now
                        && (is_after s.absolute_expires_at now && is_some s.mfa_verified_at))))))

unfoldable pub session_of : User → ℕ → ℕ → World → Result Error Session
session_of user session_id now w = do
  refuse (not_present user) permission_denied
  demand (first (λ (s : Session). (s.id == session_id) && is_live w user now s) w.sessions)
      permission_denied

-- The pairs of provider and operation that may be executed
abbrev pub is_draft_kind : String → String → Bool
is_draft_kind provider kind =
    (str_eq provider "eventbrite" && str_eq kind "create_eventbrite_draft")
    || ((str_eq provider "iterable" && str_eq kind "create_iterable_email_draft")
        || (str_eq provider "iterable" && str_eq kind "create_iterable_reminder_draft"))

abbrev pub tool_of : String → String
tool_of provider =
    if str_eq provider "eventbrite" then "request_eventbrite_draft" else "request_iterable_drafts"

-- `capability.correlation_id != run.hermes_binding.correlation_id`, where the first may be null
abbrev pub is_text : Option String → String → Bool
is_text none t = false
is_text (some s) t = str_eq s t

abbrev pub denied : Result Invalid (Unit {0}) → Result Error (Unit {0})
denied (ok a) = ok tt
denied (err e) = err permission_denied

-- `validate(intent.proposal.content, PROPOSAL)` of an intent for Iterable
abbrev pub require_schema : Intent → Result Error (Unit {0})
require_schema intent =
    if str_eq intent.provider "iterable"
    then denied (validate intent.proposal.content proposal)
    else ok tt

module _ (c : Contracts) where
  unfoldable pub digest : Json → Result Error String
  digest value = lift (bounded_json value) >>= λ encoded. ok (c.sha256 encoded)

  abbrev pub id_of : ℕ → Json
  id_of n = str (c.id_text n)

  abbrev pub action_of : Workflow → Intent → String → Json
  action_of workflow intent revision_digest = obj (
      field "workflow_id" (id_of workflow.id) (
        field "revision_id" (num (pos intent.revision_id)) (
          field "revision_digest" (str revision_digest) (
            field "provider" (str intent.provider) (
              field "operation_kind" (str intent.operation_kind)
                (field "proposal_digest" (str intent.proposal.digest) end))))))

  abbrev pub idempotency_of : Workflow → Intent → String → Json
  idempotency_of workflow intent action = arr (
      item (id_of workflow.id) (
        item (num (pos intent.revision_id)) (
          item (id_of intent.actor_id) (item (str intent.operation_kind) (item (str action) nil)))))

  -- The disjunction of `validate_intent`, in its order: the part before `run.hermes_binding`, the
  -- binding, the control and the capability, and the intent itself.
  abbrev pub run_differs : Workflow → Run → Bool
  run_differs workflow run =
      not run.has_succeeded
      || (not run.hermes_lane
          || (not (run.workflow_id == workflow.id)
              || (not (run.event_revision_id == workflow.revision_id)
                  || not (str_eq run.package_hash workflow.package_hash))))

  abbrev pub capability_differs : Workflow → Intent → Binding → Option ℕ → String → Bool
  capability_differs workflow intent binding control revision_digest =
      let capability = intent.proposal.capability in
      not (is_id control capability.id)
      || (not (capability.workflow_id == workflow.id)
          || (not (capability.revision_id == workflow.revision_id)
              || (not (capability.actor_id == intent.actor_id)
                  || (not (str_eq capability.audience audience_name)
                      || (not (is_text capability.correlation_id binding.correlation_id)
                          || (not (any (str_eq (tool_of intent.provider)) capability.tools)
                              || not (str_eq capability.revision_digest revision_digest)))))))

  abbrev pub intent_differs : Intent → String → String → Bool
  intent_differs intent action idem =
      not (is_draft_kind intent.provider intent.operation_kind)
      || (not (str_eq intent.status "pending")
          || (is_some intent.approval_id
              || (is_some intent.receipt
                  || (not (str_eq intent.action_digest action)
                      || not (str_eq intent.idempotency_key idem)))))

  unfoldable pub validate_intent : Intent → Run → World → Result Error String
  validate_intent intent run w = do
    workflow ← demand (find (λ (x : Workflow). x.id) intent.workflow_id w.workflows) does_not_exist
    revision_digest ← digest workflow.snapshot
    action ← digest (action_of workflow intent revision_digest)
    idem ← digest (idempotency_of workflow intent action)
    refuse (run_differs workflow run) permission_denied
    binding ← demand run.hermes_binding does_not_exist
    refuse
        (not (binding.actor_id == intent.actor_id)
          || not (str_eq binding.revision_digest revision_digest))
        permission_denied
    control ← demand run.control does_not_exist
    refuse (capability_differs workflow intent binding control revision_digest) permission_denied
    refuse
        (not (intent.revision_id == workflow.revision_id)
          || not (str_eq intent.proposal.kind "proposal"))
        permission_denied
    content ← digest intent.proposal.content
    refuse (not (str_eq intent.proposal.digest content)) permission_denied
    refuse (intent_differs intent action idem) permission_denied
    require_schema intent
    ok revision_digest

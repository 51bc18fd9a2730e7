-- ===== src/Capability.antt =====
-- backend/agents/capabilities.py and `bound_tool_context` of backend/agents/mcp.py: short-lived
-- authority for the tools of one workflow. A store has the rows that they read and write. Digests
-- (SHA-256), the signature of a token and the random token itself are parameters; times are in
-- microseconds. A set of tools is a list, and the arguments have their types.
pub mod Bound
mod Tests
use civic_loop.Prelude.{
  ℕ, ◌+◌, ◌*◌, String, Bool, true, false, not, ◌&&◌, Option, none, some, List, [], ◌∷◌, ◌++◌, ltb,
  leb, ◌==◌, str_eq, is_none, any, all, if◌then◌else◌,
}
use civic_loop.Prelude.Result.{Result, ok, err, ◌>>=◌, ◌>>◌, refuse, demand}
use civic_loop.Launch.{Snapshot}
use civic_loop.Launch.Workflow.{Role, is_operator}
use Prim.Native.String.{count}

pub data Denial : Type 0 where
  authorization_denied invalid_tool_arguments does_not_exist integrity_error : Denial

abbrev pub audience_name : String
audience_name = "civicloop-hermes"

abbrev pub tool_names : List String
tool_names =
    "get_event_revision" ∷ "get_policy_context" ∷ "request_clarification"
    ∷ "propose_campaign_drafts" ∷ "validate_proposal" ∷ "request_eventbrite_draft"
    ∷ "request_iterable_drafts" ∷ "get_operation_status" ∷ []

pub record Revision : Type 0 where
  pub id : ℕ
  pub event_id : ℕ
  pub snapshot : Snapshot

pub record OwnedWorkflow : Type 0 where
  pub id : ℕ
  pub event_id : ℕ
  pub revision : Revision

-- `user` is whether the account is active, where the actor has one.
pub record Operator : Type 0 where
  pub id : ℕ
  pub role : Role
  pub user : Option Bool

pub record WorkflowCapability : Type 0 where
  pub id : ℕ
  pub token_digest : String
  pub revision_digest : String
  pub workflow_id : ℕ
  pub revision_id : ℕ
  pub actor_id : ℕ
  pub tools : List String
  pub audience : String
  pub issued_at : ℕ
  pub expires_at : ℕ
  pub revoked_at : Option ℕ
  pub correlation_id : Option String

pub record CapabilityAudit : Type 0 where
  pub actor_id : ℕ
  pub action : String
  pub workflow_id : ℕ
  pub capability_id : ℕ

pub record Store : Type 0 where
  pub workflows : List OwnedWorkflow
  pub actors : List Operator
  pub capabilities : List WorkflowCapability
  pub audits : List CapabilityAudit

-- `filter(...).first()` of rows that a unique column tells apart
abbrev pub first {ℓ} : {A : Type ℓ} → (A → Bool) → List A → Option A
first p [] = none
first p (x ∷ xs) = let rest = first p xs in if p x then some x else rest

abbrev pub has_digest : String → WorkflowCapability → Bool
has_digest d c = str_eq c.token_digest d

abbrev pub is_active : Option Bool → Bool
is_active none = false
is_active (some b) = b

abbrev pub known_tools : List String → Bool
known_tools tools = all (λ t. any (λ k. str_eq k t) tool_names) tools

abbrev pub has_tools : List String → Bool
has_tools [] = false
has_tools (_ ∷ _) = true

abbrev pub revoke_first : String → ℕ → List WorkflowCapability → List WorkflowCapability
revoke_first d now [] = []
revoke_first d now (c ∷ cs) =
    if has_digest d c then record c { revoked_at = some now } ∷ cs else c ∷ revoke_first d now cs

-- The checks on the row, at a time; that it expires after its issue follows from two of them.
abbrev pub in_force : ℕ → WorkflowCapability → Operator → Bool
in_force now c actor =
    str_eq c.audience audience_name
    && (is_none c.revoked_at
        && (leb c.issued_at now
            && (ltb now c.expires_at
                && (leb c.expires_at (c.issued_at + 300_000_000)
                    && (has_tools c.tools
                        && (known_tools c.tools
                            && (is_operator actor.role && is_active actor.user)))))))

module _ (digest : Snapshot → Result Denial String) (token_digest : String → String) where
  abbrev pub new_capability :
      ℕ → String → ℕ → ℕ → ℕ → ℕ → List String → ℕ → String → WorkflowCapability
  new_capability id token now workflow_id revision_id actor_id tools lifetime_seconds
        revision_digest =
      record {
        id = id;
        token_digest = token_digest token;
        revision_digest = revision_digest;
        workflow_id = workflow_id;
        revision_id = revision_id;
        actor_id = actor_id;
        tools = tools;
        audience = audience_name;
        issued_at = now;
        expires_at = now + lifetime_seconds * 1_000_000;
        revoked_at = none;
        correlation_id = none;
      }

  -- `id` and `token` are new; the token is signed and random.
  unfoldable pub issue_workflow_capability :
      ℕ → String → ℕ → ℕ → ℕ → ℕ → List String → ℕ → Store → Result Denial (String × Store)
  issue_workflow_capability id token now workflow_id revision_id actor_id tools lifetime_seconds s =
      do
        refuse
            (not (
              leb 1 lifetime_seconds
              && (leb lifetime_seconds 300 && (has_tools tools && known_tools tools))))
            authorization_denied
        w ←
            demand (first (λ (w : OwnedWorkflow). w.id == workflow_id) s.workflows)
              authorization_denied
        actor ← demand (first (λ (a : Operator). a.id == actor_id) s.actors) authorization_denied
        refuse
            (not (
              (w.revision.id == revision_id)
              && ((w.revision.event_id == w.event_id)
                  && (is_active actor.user && is_operator actor.role))))
            authorization_denied
        revision_digest ← digest w.revision.snapshot
        refuse (any (has_digest (token_digest token)) s.capabilities) integrity_error
        ok (
          token,
          record s {
            capabilities =
                s.capabilities
                ++ new_capability id token now workflow_id revision_id actor_id tools
                    lifetime_seconds revision_digest
                  ∷ [];
            audits =
                s.audits
                ++ record {
                  actor_id = actor.id;
                  action = "mcp.capability_issued";
                  workflow_id = w.id;
                  capability_id = id;
                }
                  ∷ [];
          },
        )

  unfoldable pub revoke_workflow_capability : String → ℕ → Store → Result Denial Store
  revoke_workflow_capability capability now s = do
    c ← demand (first (has_digest (token_digest capability)) s.capabilities) authorization_denied
    ok (record s {
      capabilities = revoke_first (token_digest capability) now s.capabilities;
      audits =
          s.audits
          ++ record {
            actor_id = c.actor_id;
            action = "mcp.capability_revoked";
            workflow_id = c.workflow_id;
            capability_id = c.id;
          }
            ∷ [];
    })

  -- The tools and, once the correlation is bound, the correlation that the context carries with the
  -- identifiers of the row. `signed` is `verify_token`.
  unfoldable pub bound_tool_context :
      (String → Bool) → String → ℕ → Store → Result Denial (Option String × List String)
  bound_tool_context signed token now s = do
    refuse (ltb 160 (count token)) authorization_denied
    refuse (not (signed token)) authorization_denied
    c ← demand (first (has_digest (token_digest token)) s.capabilities) authorization_denied
    actor ← demand (first (λ (a : Operator). a.id == c.actor_id) s.actors) does_not_exist
    refuse (not (in_force now c actor)) authorization_denied
    w ← demand (first (λ (w : OwnedWorkflow). w.id == c.workflow_id) s.workflows) does_not_exist
    current ← digest w.revision.snapshot
    refuse
        (not (
          (w.revision.id == c.revision_id)
          && (str_eq current c.revision_digest && (w.event_id == w.revision.event_id))))
        authorization_denied
    ok (c.correlation_id, c.tools)

-- ===== src/Launch/Workflow/Calls/Trails.antt =====
-- The two trails of backend/launchloop/services.py: WorkflowTransition and AuditEvent rows.
use civic_loop.Launch.Workflow.Consistency.Life.{Call, runs, replies, submits, decides, resets}
use civic_loop.Launch.Workflow.{WorkflowTransition, AuditEvent, Board}
use civic_loop.Prelude.{ℕ, String, ◌≡◌, Bool, true, false, List, ◌∷◌, ◌++◌, map, All}

-- The audit event that `_transition` records beside a transition.
abbrev audit_of : ℕ → WorkflowTransition → AuditEvent
audit_of workflow_id t = record {
  actor = t.actor;
  action = t.action;
  target_id = workflow_id;
  details = t.details;
}

-- Both trails grow by the same rows, at least one, all of one actor, for one workflow.
abbrev pub Grows : String → Board → Board → Type 0
Grows actor b b' =
    (t : WorkflowTransition) × (ts : List WorkflowTransition) × (b'.transitions
      ≡ b.transitions ++ (t ∷ ts))
    × (b'.audits ≡ b.audits ++ map (audit_of b.workflow.id) (t ∷ ts))
    × All (λ (u : WorkflowTransition). u.actor ≡ actor) (t ∷ ts)
    × (b'.workflow.id ≡ b.workflow.id)

abbrev pub actor_of : Call → String
actor_of (runs _ actor) = actor.slug
actor_of (replies _ actor _) = actor.slug
actor_of (submits _ _ actor) = actor.slug
actor_of (decides _ actor _ _ _ _) = actor.slug
actor_of (resets _) = "maya"

abbrev is_reset : Call → Bool
is_reset (resets _) = true
is_reset _ = false

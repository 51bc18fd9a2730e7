-- ===== src/Draft/Rows.antt =====
-- The tables of executions: `save` and the constraints of DraftExecution and TemplateExecution
-- (backend/integrations/models.py), which are the same for both, and `update` on one row.
use civic_loop.Prelude.Result.{Result, ok, ◌>>◌, refuse}
use civic_loop.Prelude.Table.{find, save}
use civic_loop.Prelude.{
  ℕ, String, Bool, true, false, not, ◌&&◌, ◌||◌, Option, none, some, List, [], ◌∷◌, ◌++◌, any, ◌==◌,
  str_eq, is_some, is_none,
}
use civic_loop.Draft.{
  Error, validation_error, integrity_error, Status, pending, approved, executing, succeeded, failed,
  unknown, Kind, draft, template, Execution, Store,
}
use civic_loop.Draft.Review.{json_eq}

abbrev pub key : Execution → ℕ
key x = x.id

abbrev pub rows : Kind → Store → List Execution
rows draft s = s.drafts
rows template s = s.templates

abbrev pub with_rows : Kind → List Execution → Store → Store
with_rows draft xs s = record s { drafts = xs }
with_rows template xs s = record s { templates = xs }

abbrev pub same_time : Option ℕ → Option ℕ → Bool
same_time none none = true
same_time (some a) (some b) = a == b
same_time _ _ = false

-- The fields under review
unfoldable pub same_review : Execution → Execution → Bool
same_review a b =
    (a.intent_id == b.intent_id)
    && ((a.run_id == b.run_id)
        && ((a.submitter_id == b.submitter_id)
            && (str_eq a.action b.action
                && (str_eq a.organization_id b.organization_id
                    && (str_eq a.event_id b.event_id
                        && (str_eq a.expected_readback_digest b.expected_readback_digest
                            && (json_eq a.payload b.payload
                                && (json_eq a.provider_configuration b.provider_configuration
                                    && (str_eq a.request_digest b.request_digest
                                        && str_eq a.review_digest b.review_digest)))))))))

unfoldable pub same_approval : Execution → Execution → Bool
same_approval a b =
    same_time a.approver_id b.approver_id
    && (same_time a.approved_at b.approved_at
        && same_time a.approval_session_id b.approval_session_id)

unfoldable pub review_changed : Execution → Execution → Bool
review_changed old new =
    not (same_review old new) || (is_some old.approver_id && not (same_approval old new))

-- `self.status in transitions[old["status"]]`
abbrev pub transition : Status → Status → Bool
transition pending pending = true
transition pending approved = true
transition approved approved = true
transition approved executing = true
transition executing executing = true
transition executing unknown = true
transition executing failed = true
transition executing succeeded = true
transition unknown unknown = true
transition unknown succeeded = true
transition failed failed = true
transition succeeded succeeded = true
transition _ _ = false

unfoldable pub history_reset : Execution → Execution → Bool
history_reset old new =
    not (transition old.status new.status)
    || ((is_some old.claimed_at && not (same_time old.claimed_at new.claimed_at))
        || (is_some old.completed_at && is_none new.completed_at))

-- integrations_draft_action and integrations_draft_approval_required
unfoldable pub action_valid : Execution → Bool
action_valid x = str_eq x.action "create" || str_eq x.action "update"

abbrev pub approval_for : Status → Execution → Bool
approval_for pending x =
    is_none x.approver_id
    && (is_none x.approval_session_id && (is_none x.approved_at && is_none x.claimed_at))
approval_for _ x = is_some x.approver_id && (is_some x.approved_at && is_some x.approval_session_id)

abbrev pub approval_valid : Execution → Bool
approval_valid x = approval_for x.status x

-- integrations_draft_execution_lifecycle
abbrev untouched : Execution → Bool
untouched x =
    is_none x.claimed_at
    && (is_none x.completed_at
        && (is_none x.receipt && (str_eq x.provider_id "" && str_eq x.error_category "")))

abbrev pub lifecycle_for : Status → Execution → Bool
lifecycle_for pending x = untouched x
lifecycle_for approved x = untouched x
lifecycle_for executing x =
    is_some x.claimed_at
    && (is_none x.completed_at && (is_none x.receipt && str_eq x.error_category ""))
lifecycle_for unknown x = is_some x.claimed_at && is_some x.completed_at
lifecycle_for failed x = is_some x.claimed_at && is_some x.completed_at
lifecycle_for succeeded x =
    is_some x.claimed_at
    && (is_some x.completed_at && (is_some x.receipt && not (str_eq x.provider_id "")))

abbrev pub lifecycle_valid : Execution → Bool
lifecycle_valid x = lifecycle_for x.status x

-- The constraints of a row
unfoldable pub valid : Execution → Bool
valid x = action_valid x && (approval_valid x && lifecycle_valid x)

-- `save`: an insert, or the update of the row that is there
abbrev pub insert_row : Execution → List Execution → Result Error (List Execution)
insert_row x xs = do
  refuse (not (valid x)) integrity_error
  refuse (any (λ (y : Execution). y.intent_id == x.intent_id) xs) integrity_error
  ok (xs ++ x ∷ [])

abbrev pub update_row : Execution → Execution → List Execution → Result Error (List Execution)
update_row old x xs = do
  refuse (review_changed old x) validation_error
  refuse (history_reset old x) validation_error
  refuse (not (valid x)) integrity_error
  ok (save key x xs)

abbrev pub save_row : Option Execution → Execution → List Execution → Result Error (List Execution)
save_row none x xs = insert_row x xs
save_row (some old) x xs = update_row old x xs

unfoldable pub save_execution : Execution → List Execution → Result Error (List Execution)
save_execution x xs = save_row (find key x.id xs) x xs

-- `objects.filter(pk=id).update(status=..., error_category=..., completed_at=now)`
abbrev pub ended : Status → String → ℕ → Execution → Execution
ended status category now x = record x {
  status = status;
  error_category = category;
  completed_at = some now;
}

abbrev pub update_found :
    Option Execution → Status → String → ℕ → List Execution → Result Error (List Execution)
update_found none status category now xs = ok xs
update_found (some x) status category now xs = do
  refuse (not (valid (ended status category now x))) integrity_error
  ok (save key (ended status category now x) xs)

unfoldable pub update_ended :
    ℕ → Status → String → ℕ → List Execution → Result Error (List Execution)
update_ended id status category now xs = update_found (find key id xs) status category now xs

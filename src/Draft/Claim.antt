-- ===== src/Draft/Claim.antt =====
-- `execute_draft`, `reconcile_draft`, `execute_template` and `reconcile_template` of
-- backend/integrations/draft_operations.py up to the request: the claim, which is committed, and
-- the checks under the lease of the secret. Whether the secret store gives the lease is an argument.
use civic_loop.Prelude.Result.{Result, ok, err, ◌>>=◌, ◌>>◌, refuse, demand}
use civic_loop.Prelude.Table.{find}
use civic_loop.Prelude.{
  ℕ, String, Bool, true, false, not, ◌&&◌, ◌||◌, Option, none, some, str_eq, is_none, if◌then◌else◌,
}
use civic_loop.Json.{Json, null, obj, get}
use civic_loop.Capability.{first}
use civic_loop.Draft.{
  Error, permission_denied, does_not_exist, attribute_error, approved, executing, unknown,
  status_eq, Kind, draft, template, User, Execution, Secret, Connection, World, Store, Contracts,
}
use civic_loop.Draft.Acceptance.{session_of, is_id}
use civic_loop.Draft.Review.{json_eq, item_of, intent_of}
use civic_loop.Draft.Service.{lock_workflow}
use civic_loop.Draft.Validation.{validate_execution}
use civic_loop.Draft.Rows.{key, rows, with_rows, save_execution}
use civic_loop.Draft.Dispatch.{Worker}

-- `_reference`
abbrev reference : String → World → Result Error (Connection × Secret)
reference provider w = do
  connection ←
      demand (first (λ (x : Connection). str_eq x.provider provider) w.connections) does_not_exist
  refuse (not connection.is_healthy) permission_denied
  secret ← demand connection.secret permission_denied
  refuse (not secret.is_active) permission_denied
  ok (connection, secret)

abbrev or_null : Option Json → Json
or_null none = null
or_null (some v) = v

-- `configuration.get("region") != operation.provider_configuration["region"]`
abbrev region_of : Json → Result Error Json
region_of (obj fs) = ok (or_null (get "region" fs))
region_of _ = err attribute_error

abbrev pub can_reconcile : Execution → Bool
can_reconcile x = status_eq x.status unknown || status_eq x.status executing

abbrev is_draft : Kind → Bool
is_draft draft = true
is_draft template = false

-- The row as it is claimed; an Eventbrite update already knows its event.
abbrev pub claimed : Bool → ℕ → Execution → Execution
claimed is_iterable now x = record x {
  status = executing;
  claimed_at = some now;
  provider_id = if not is_iterable && str_eq x.action "update" then x.event_id else x.provider_id;
}

abbrev pub enabled : Bool → World → Bool
enabled true w = w.iterable_write_enabled
enabled false w = w.eventbrite_write_enabled

module _ (c : Contracts) (now : ℕ) (w : World) where
  -- Whether a draft's intent is one for Iterable; a template's always is.
  abbrev pub is_iterable : Kind → ℕ → Store → Result Error Bool
  is_iterable template operation_id s = ok true
  is_iterable draft operation_id s = do
    operation ← demand (find key operation_id s.drafts) does_not_exist
    intent ← intent_of c w operation
    ok (str_eq intent.provider "iterable")

  -- `select_for_update` on the row and the workflow of its intent
  abbrev pub lock : Kind → ℕ → Store → Result Error Execution
  lock kind operation_id s = do
    operation ← demand (find key operation_id (rows kind s)) does_not_exist
    intent ← intent_of c w operation
    _ ← lock_workflow c now w intent.workflow_id
    ok operation

  abbrev pub row_for : Bool → Kind → ℕ → Store → Result Error Execution
  row_for true kind operation_id s = lock kind operation_id s
  row_for false kind operation_id s = demand (find key operation_id (rows kind s)) does_not_exist

  abbrev pub check_reference : Bool → Result Error (Unit {0})
  check_reference true = ok tt
  check_reference false = reference "eventbrite" w >>= λ r. ok tt

  -- The claim of `execute_draft` and of `_execute_iterable`
  unfoldable pub claim : Bool → Kind → User → ℕ → ℕ → Store → Result Error (Worker × Store)
  claim in_atomic_block kind user session_id operation_id s = do
    iterable ← is_iterable kind operation_id s
    refuse (not (enabled iterable w)) permission_denied
    session ← session_of user session_id now w
    check_reference iterable
    refuse in_atomic_block permission_denied
    operation ← lock kind operation_id s
    validate_execution c now w kind s.templates operation true
    refuse (not (is_id operation.approver_id user.id)) permission_denied
    refuse (not (status_eq operation.status approved)) permission_denied
    let claimed_row = claimed iterable now operation
    xs ← save_execution claimed_row (rows kind s)
    ok (
      record {
        kind = kind;
        operation = claimed_row;
        is_iterable = iterable;
        is_reconciling = false;
        session_id = session.id;
        user = user;
      },
      with_rows kind xs s,
    )

  -- What a reconciliation asks of the row: an Eventbrite event or a campaign needs its id.
  abbrev pub lacks_identity : Bool → Kind → Execution → Bool
  lacks_identity iterable kind x =
      (iterable && is_none x.claimed_at) || (is_draft kind && str_eq x.provider_id "")

  -- The start of `reconcile_draft` and of `_execute_iterable` with `reconcile`, which write nothing
  unfoldable pub start_reconcile : Bool → Kind → User → ℕ → ℕ → Store → Result Error Worker
  start_reconcile in_atomic_block kind user session_id operation_id s = do
    refuse in_atomic_block permission_denied
    iterable ← is_iterable kind operation_id s
    refuse (not (enabled iterable w)) permission_denied
    session ← session_of user session_id now w
    operation ← row_for iterable kind operation_id s
    validate_execution c now w kind s.templates operation false
    refuse (not (is_id operation.approver_id user.id)) permission_denied
    refuse (not (can_reconcile operation)) permission_denied
    refuse (lacks_identity iterable kind operation) permission_denied
    ok (record {
      kind = kind;
      operation = operation;
      is_iterable = iterable;
      is_reconciling = true;
      session_id = session.id;
      user = user;
    })

  abbrev check_region : Execution → Result Error (Unit {0})
  check_region operation = do
    (connection, secret) ← reference "iterable" w
    region ← region_of connection.configuration
    expected ← item_of operation.provider_configuration "region"
    refuse (not (json_eq region expected)) permission_denied

  -- The session is read again by the id that the caller gave, which is the session's.
  abbrev prepare_iterable : Bool → Worker → Store → Result Error (Unit {0})
  prepare_iterable leased k s = do
    check_region k.operation
    refuse (not leased) permission_denied
    refuse (not w.iterable_write_enabled) permission_denied
    _ ← session_of k.user k.session_id now w
    validate_execution c now w k.kind s.templates k.operation (not k.is_reconciling)

  abbrev prepare_eventbrite : Bool → Worker → Store → Result Error (Unit {0})
  prepare_eventbrite leased k s = do
    refuse (not leased) permission_denied
    refuse (not w.eventbrite_write_enabled) permission_denied
    validate_execution c now w k.kind s.templates k.operation true

  abbrev prepare_readback : Bool → Result Error (Unit {0})
  prepare_readback leased = do _ ← reference "eventbrite" w; refuse (not leased) permission_denied

  abbrev prepare_for : Bool → Bool → Bool → Worker → Store → Result Error (Unit {0})
  prepare_for true is_reconciling leased k s = prepare_iterable leased k s
  prepare_for false false leased k s = prepare_eventbrite leased k s
  prepare_for false true leased k s = prepare_readback leased

  -- The checks after the claim, up to the request
  unfoldable pub prepare : Bool → Worker → Store → Result Error (Unit {0})
  prepare leased k s = prepare_for k.is_iterable k.is_reconciling leased k s

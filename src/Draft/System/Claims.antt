-- ===== src/Draft/System/Claims.antt =====
-- What an approval, a claim and the start of a reconciliation
-- (backend/integrations/draft_operations.py) find and leave.
use civic_loop.Draft.Dispatch.{Worker}
use civic_loop.Draft.System.Submits.{saved-status, Moves, save_execution-Moves}
use civic_loop.Draft.Review.{intent_of}
use civic_loop.Draft.Claim.{
  claimed, can_reconcile, enabled, is_iterable, lock, row_for, check_reference, claim,
  lacks_identity, start_reconcile,
}
use civic_loop.Prelude.Result.{ok, demand, of_refuse, of_ok, of_bind, of_demand}
use civic_loop.Prelude.Table.{find, key-find}
use civic_loop.Prelude.{
  ℕ, ◌≡◌, refl, sym, ◌∙◌, ap, subst, arith, String, Bool, true, false, not, ◌||◌, Option, none,
  some, List, ◌==◌, str_eq,
}
use civic_loop.Draft.{
  Session, permission_denied, does_not_exist, Status, pending, approved, executing, succeeded,
  failed, unknown, status_eq, Kind, Execution, Store, User, World, Contracts,
}
use civic_loop.Draft.Acceptance.{is_id, digest, session_of}
use civic_loop.Draft.Validation.{validate_execution}
use civic_loop.Draft.Rows.{valid, key, rows, with_rows, save_execution}
use civic_loop.Draft.Service.{intent_row, lock_workflow, approve}
use civic_loop.Draft.System.Spec.{started, status_of, status_at, started_status}

of_pending : (a : Status) → status_eq a pending ≡ true → a ≡ pending
of_pending pending h = refl
of_pending approved h = ground arith
of_pending executing h = ground arith
of_pending succeeded h = ground arith
of_pending failed h = ground arith
of_pending unknown h = ground arith

of_approved : (a : Status) → status_eq a approved ≡ true → a ≡ approved
of_approved approved h = refl
of_approved pending h = ground arith
of_approved executing h = ground arith
of_approved succeeded h = ground arith
of_approved failed h = ground arith
of_approved unknown h = ground arith

reconcilable :
    (a : Status) → (status_eq a unknown || status_eq a executing) ≡ true → started_status a ≡ true
reconcilable unknown h = refl
reconcilable executing h = refl
reconcilable succeeded h = refl
reconcilable failed h = refl
reconcilable approved h = h
reconcilable pending h = h

of_not : (b : Bool) → not b ≡ false → b ≡ true
of_not true h = refl
of_not false h = ground arith

demanded : (o : Option Execution) {x : Execution} → demand o does_not_exist ≡ ok x → o ≡ some x
demanded (some a) h = ap some (of_ok h)
demanded none h = ground arith

-- A row that is found has its status under its own id.
status-found :
    (kind : Kind) (id : ℕ) (s : Store) {x : Execution}
    → find key id (rows kind s) ≡ some x
    → status_at kind x.id s ≡ some x.status
status-found kind id s {x} h =
    ap (λ n. status_of (find key n (rows kind s))) (key-find key id (rows kind s) h)
    ∙ ap status_of h

-- What an approval has found of the operation, and the row that it saved
unfoldable pub Approved : Kind → User → ℕ → ℕ → String → Store → Execution × Store → Type 0
Approved kind user now id digest s (x, t) =
    (operation : Execution) × (session_id : ℕ) × (find key id (rows kind s) ≡ some operation)
    × (operation.status ≡ pending)
    × (str_eq digest operation.review_digest ≡ true)
    × (x ≡ record operation {
      approver_id = some user.id;
      approval_session_id = some session_id;
      approved_at = some now;
      status = approved;
    })
    × ((ys : List Execution) × (save_execution x (rows kind s) ≡ ok ys) × (t ≡ with_rows kind ys s))

module _ (c : Contracts) (now : ℕ) (w : World) where
  pub of_approve :
      (kind : Kind) (user : User) (session_id id : ℕ) (digest : String) (revision_id : ℕ)
      (s : Store) {x : Execution} {t : Store}
      → approve c now w kind user session_id id digest revision_id s ≡ ok (x, t)
      → Approved kind user now id digest s (x, t)
  unfolding approve Approved
  of_approve kind user session_id id digest revision_id s {x} {t} h =
      let (session, _, h1) = of_bind (session_of user session_id now w) h in
      let (operation, found, h2) = of_demand (find key id (rows kind s)) does_not_exist h1 in
      let (intent, _, h3) = of_bind (intent_row c now w operation.intent_id) h2 in
      let (_, _, h4) = of_bind (lock_workflow c now w intent.workflow_id) h3 in
      let (_, _, h5) = of_bind (validate_execution c now w kind s.templates operation true) h4 in
      let (exact, h6) =
        of_refuse
          (not (status_eq operation.status pending)
            || (not (str_eq digest operation.review_digest)
                || not (revision_id == intent.revision_id)))
          permission_denied h5 in
      let row = record operation {
        approver_id = some user.id;
        approval_session_id = some session.id;
        approved_at = some now;
        status = approved;
      } in
      let (ys, saved, h7) = of_bind (save_execution row (rows kind s)) h6 in
      let e = of_ok h7 in
      let same = ap (λ p. p.0) e in
      (
        operation,
        session.id,
        found,
        of_pending operation.status (of_not _ (ground (arith, exact))),
        ground (arith, exact),
        sym same,
        (ys, subst (λ r. save_execution r (rows kind s) ≡ ok ys) same saved, sym (ap (λ p. p.1) e)),
      )

  of_lock :
      (kind : Kind) (id : ℕ) (s : Store) {x : Execution}
      → lock c now w kind id s ≡ ok x
      → find key id (rows kind s) ≡ some x
  of_lock kind id s {x} h =
      let (operation, found, h1) = of_demand (find key id (rows kind s)) does_not_exist h in
      let (intent, _, h2) = of_bind (intent_of c w operation) h1 in
      let (_, _, h3) = of_bind (lock_workflow c now w intent.workflow_id) h2 in
      found ∙ ap some (of_ok h3)

  of_row_for :
      (iterable : Bool) (kind : Kind) (id : ℕ) (s : Store) {x : Execution}
      → row_for c now w iterable kind id s ≡ ok x
      → find key id (rows kind s) ≡ some x
  of_row_for true kind id s h = of_lock kind id s h
  of_row_for false kind id s h = demanded (find key id (rows kind s)) h

  -- What a claim has found of the operation, and the row that it saved
  unfoldable pub Claimed : Kind → User → ℕ → ℕ → Store → Worker × Store → Type 0
  Claimed kind user session_id id s (k, t) =
      (operation : Execution) × (session : Session) × (session_of user session_id now w
        ≡ ok session)
      × (find key id (rows kind s) ≡ some operation)
      × (operation.status ≡ approved)
      × (is_id operation.approver_id user.id ≡ true)
      × (validate_execution c now w kind s.templates operation true ≡ ok tt)
      × (k ≡ record {
        kind = kind;
        operation = claimed k.is_iterable now operation;
        is_iterable = k.is_iterable;
        is_reconciling = false;
        session_id = session.id;
        user = user;
      })
      × ((ys : List Execution) × (save_execution (claimed k.is_iterable now operation) (rows kind s)
            ≡ ok ys)
          × (t ≡ with_rows kind ys s))

  pub of_claim :
      (in_atomic_block : Bool) (kind : Kind) (user : User) (session_id id : ℕ) (s : Store)
      {k : Worker} {t : Store}
      → claim c now w in_atomic_block kind user session_id id s ≡ ok (k, t)
      → Claimed kind user session_id id s (k, t)
  unfolding claim Claimed
  of_claim in_atomic_block kind user session_id id s {k} {t} h =
      let (iterable, _, h1) = of_bind (is_iterable c now w kind id s) h in
      let (_, h2) = of_refuse (not (enabled iterable w)) permission_denied h1 in
      let (session, live, h3) = of_bind (session_of user session_id now w) h2 in
      let (_, _, h4) = of_bind (check_reference c now w iterable) h3 in
      let (_, h5) = of_refuse in_atomic_block permission_denied h4 in
      let (operation, locked, h6) = of_bind (lock c now w kind id s) h5 in
      let (_, valid, h7) =
        of_bind (validate_execution c now w kind s.templates operation true) h6 in
      let (owner, h8) =
        of_refuse (not (is_id operation.approver_id user.id)) permission_denied h7 in
      let (status, h9) =
        of_refuse (not (status_eq operation.status approved)) permission_denied h8 in
      let (ys, saved, h10) =
        of_bind (save_execution (claimed iterable now operation) (rows kind s)) h9 in
      let e = of_ok h10 in
      let worker = sym (ap (λ p. p.0) e) in
      let same : iterable ≡ k.is_iterable = ap (λ p. p.0.is_iterable) e in
      (
        operation,
        session,
        live,
        of_lock kind id s locked,
        of_approved operation.status (of_not _ status),
        of_not _ owner,
        valid,
        subst
            (λ b. k ≡ record {
              kind = kind;
              operation = claimed b now operation;
              is_iterable = b;
              is_reconciling = false;
              session_id = session.id;
              user = user;
            })
            same worker,
        (
          ys,
          subst (λ b. save_execution (claimed b now operation) (rows kind s) ≡ ok ys) same saved,
          sym (ap (λ p. p.1) e),
        ),
      )

  pub of_start_reconcile :
      (in_atomic_block : Bool) (kind : Kind) (user : User) (session_id id : ℕ) (s : Store)
      {k : Worker}
      → start_reconcile c now w in_atomic_block kind user session_id id s ≡ ok k
      → (k.kind ≡ kind)
        × (k.is_reconciling ≡ true)
        × (started (status_at kind k.operation.id s) ≡ true)
  unfolding start_reconcile
  of_start_reconcile in_atomic_block kind user session_id id s {k} h =
      let (_, h0) = of_refuse in_atomic_block permission_denied h in
      let (iterable, _, h1) = of_bind (is_iterable c now w kind id s) h0 in
      let (_, h2) = of_refuse (not (enabled iterable w)) permission_denied h1 in
      let (session, _, h3) = of_bind (session_of user session_id now w) h2 in
      let (operation, locked, h4) = of_bind (row_for c now w iterable kind id s) h3 in
      let (_, _, h5) = of_bind (validate_execution c now w kind s.templates operation false) h4 in
      let (_, h6) = of_refuse (not (is_id operation.approver_id user.id)) permission_denied h5 in
      let (status, h7) = of_refuse (not (can_reconcile operation)) permission_denied h6 in
      let (_, h8) =
        of_refuse (lacks_identity c now w iterable kind operation) permission_denied h7 in
      let e = of_ok h8 in
      (
        sym (ap (λ x. x.kind) e),
        sym (ap (λ x. x.is_reconciling) e),
        subst (λ (x : Execution). started (status_at kind x.id s) ≡ true) (ap (λ x. x.operation) e)
            (rw (status-found kind id s (of_row_for iterable kind id s locked))
              (reconcilable operation.status (of_not _ status))),
      )

pub Approved-Moves :
    (kind : Kind) (user : User) (now id : ℕ) (shown : String) (s : Store) (x : Execution)
    (t : Store)
    → Approved kind user now id shown s (x, t)
    → Moves s t
unfolding Approved
Approved-Moves kind user now id shown s x t
      (operation, session_id, found, status, _, same, (ys, saved, e)) =
    rw e (
      save_execution-Moves kind x s saved
        (rw same (rw (status-found kind id s found) (rw status refl))))

-- A claim starts an operation that was approved and not started.
pub Claimed-Moves :
    (c : Contracts) (now : ℕ) (w : World) (kind : Kind) (user : User) (session_id id : ℕ)
    (s : Store) (k : Worker) (t : Store)
    → Claimed c now w kind user session_id id s (k, t)
    → Moves s t
      × (k.kind ≡ kind)
      × (k.is_reconciling ≡ false)
      × (status_at k.kind k.operation.id s ≡ some approved)
      × (status_at k.kind k.operation.id t ≡ some executing)
unfolding Claimed
Claimed-Moves c now w kind user session_id id s k t
      (operation, session, _, found, status, _, _, same, (ys, saved, e)) =
    (
      rw e (save_execution-Moves kind row s saved (rw before refl)),
      ap (λ x. x.kind) same,
      ap (λ x. x.is_reconciling) same,
      rw same before,
      rw e (rw same (saved-status kind row s saved)),
    )
  where
    row : Execution
    row = claimed k.is_iterable now operation

    before : status_at kind operation.id s ≡ some approved
    before = status-found kind id s found ∙ ap some status

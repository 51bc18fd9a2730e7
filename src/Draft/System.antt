-- ===== src/Draft/System.antt =====
-- The calls of backend/integrations/draft_operations.py as steps of a system, in any order: between
-- the claim, the request and the reply of one call, others run, and what the other modules keep
-- (the world) and the time are those of each step. A call that raises changes no row and ends.
pub mod Spec
pub mod Writes
pub mod Submits
pub mod Claims
pub mod Ends
pub mod Counts
pub mod Once
pub mod Kept
pub mod Review
use civic_loop.Prelude.Result.{ok, err}
use civic_loop.Prelude.Table.{find}
use civic_loop.Prelude.{
  ℕ, ◌≡◌, String, Bool, true, false, not, ◌&&◌, none, List, [], ◌∷◌, ◌++◌, ◌==◌, if◌then◌else◌,
  total,
}
use civic_loop.Json.{Json}
use civic_loop.Draft.{Error, Kind, draft, template, User, Execution, World, Store, Contracts}
use civic_loop.Draft.Rows.{key}
use civic_loop.Draft.Service.{Submission, submit_draft, submit_template, approve}
use civic_loop.Draft.Dispatch.{Worker, Reply, finish, abort}
use civic_loop.Draft.Claim.{claim, start_reconcile, prepare}

-- The tables, the calls before and after their request to the provider, and the requests to create
-- or update that were sent.
pub record State : Type 0 where
  pub store : Store
  pub ready : List Worker
  pub waiting : List Worker
  pub requests : List Worker

abbrev pub initial : State
initial = record {
  store = record { drafts = []; templates = [] };
  ready = [];
  waiting = [];
  requests = [];
}

-- A reconciliation only reads from the provider.
abbrev pub requested : Worker → List Worker → List Worker
requested k xs = if k.is_reconciling then xs else k ∷ xs

pub data Step (c : Contracts) : State → State → Type 0 where
  submits :
      (now : ℕ) (w : World) (id : ℕ) (user : User) (r : Submission) (x : Execution) (s : State)
      (t : Store)
      → find key id s.store.drafts ≡ none
      → submit_draft c now w id user r s.store ≡ ok (x, t)
      → Step c s (record s { store = t })
  submits_template :
      (now : ℕ) (w : World) (id : ℕ) (user : User) (intent_id run_id : ℕ) (sender region : Json)
      (x : Execution) (s : State) (t : Store)
      → find key id s.store.templates ≡ none
      → submit_template c now w id user intent_id run_id sender region s.store ≡ ok (x, t)
      → Step c s (record s { store = t })
  approves :
      (now : ℕ) (w : World) (kind : Kind) (user : User) (session_id id : ℕ) (review_digest : String)
      (revision_id : ℕ) (x : Execution) (s : State) (t : Store)
      → approve c now w kind user session_id id review_digest revision_id s.store ≡ ok (x, t)
      → Step c s (record s { store = t })
  claims :
      (now : ℕ) (w : World) (kind : Kind) (user : User) (session_id id : ℕ) (k : Worker) (s : State)
      (t : Store)
      → claim c now w false kind user session_id id s.store ≡ ok (k, t)
      → Step c s (record s { store = t; ready = k ∷ s.ready })
  reconciles :
      (now : ℕ) (w : World) (kind : Kind) (user : User) (session_id id : ℕ) (k : Worker) (s : State)
      → start_reconcile c now w false kind user session_id id s.store ≡ ok k
      → Step c s (record s { ready = k ∷ s.ready })
  sends :
      (now : ℕ) (w : World) (leased : Bool) (k : Worker) (before after : List Worker) (s : State)
      → s.ready ≡ before ++ k ∷ after
      → prepare c now w leased k s.store ≡ ok tt
      → Step c s (record s {
        ready = before ++ after;
        waiting = k ∷ s.waiting;
        requests = requested k s.requests;
      })
  aborts :
      (now : ℕ) (w : World) (leased : Bool) (k : Worker) (before after : List Worker) (e : Error)
      (s : State) (t : Store)
      → s.ready ≡ before ++ k ∷ after
      → prepare c now w leased k s.store ≡ err e
      → abort now k e s.store ≡ ok t
      → Step c s (record s { store = t; ready = before ++ after })
  finishes :
      (now : ℕ) (k : Worker) (reply : Reply) (before after : List Worker) (s : State) (t : Store)
      → s.waiting ≡ before ++ k ∷ after
      → finish now k reply s.store ≡ ok t
      → Step c s (record s { store = t; waiting = before ++ after })
  -- a worker that dies or raises, before or after its request
  crashes :
      (k : Worker) (before after : List Worker) (s : State)
      → s.ready ≡ before ++ k ∷ after
      → Step c s (record s { ready = before ++ after })
  loses :
      (k : Worker) (before after : List Worker) (s : State)
      → s.waiting ≡ before ++ k ∷ after
      → Step c s (record s { waiting = before ++ after })

pub data Reach (c : Contracts) : State → Type 0 where
  start : Reach c initial
  then_step : (s t : State) → Reach c s → Step c s t → Reach c t

abbrev pub kind_eq : Kind → Kind → Bool
kind_eq draft draft = true
kind_eq template template = true
kind_eq _ _ = false

-- The calls on one operation
abbrev pub is_for : Kind → ℕ → Worker → Bool
is_for kind id k = kind_eq kind k.kind && (k.operation.id == id)

abbrev pub calls : Kind → ℕ → List Worker → ℕ
calls kind id xs = total (λ k. if is_for kind id k then 1 else 0) xs

-- Those that may still send a request, or did
abbrev pub senders : Kind → ℕ → List Worker → ℕ
senders kind id xs =
    total (λ (k : Worker). if is_for kind id k && not k.is_reconciling then 1 else 0) xs

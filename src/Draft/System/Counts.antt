-- ===== src/Draft/System/Counts.antt =====
-- The calls and requests on an operation (backend/integrations/draft_operations.py), counted.
use civic_loop.Draft.Dispatch.{Worker}
use civic_loop.Draft.System.Submits.{Moves}
use civic_loop.Draft.System.Spec.{stays, Move, status_at, started, Move-started}
use civic_loop.Draft.System.{kind_eq, State, is_for, calls, senders}
use civic_loop.Prelude.{
  ℕ, ◌+◌, ◌≤◌, ◌≡◌, refl, arith, true, false, not, ◌&&◌, Option, List, [], ◌∷◌, ◌++◌, if◌then◌else◌,
  inl, inr, Bool-cases, total-append,
}
use civic_loop.Draft.{Status, Kind, draft, template, Store}

-- The calls on an operation with its requests, and those that may send or have sent one
abbrev pub all_calls : Kind → ℕ → State → ℕ
all_calls kind id s = calls kind id s.ready + (calls kind id s.waiting + calls kind id s.requests)

abbrev pub all_senders : Kind → ℕ → State → ℕ
all_senders kind id s = senders kind id s.ready + calls kind id s.requests

-- An operation that was not claimed has no call and no request, and at most one call may send.
unfoldable pub Invariant : State → Type 0
Invariant s =
    (kind : Kind) (id : ℕ)
    → (started (status_at kind id s.store) ≡ false → all_calls kind id s ≡ 0)
      × (all_senders kind id s ≤ 1)

abbrev one : Kind → ℕ → Worker → ℕ
one kind id k = if is_for kind id k then 1 else 0

abbrev pub one_sender : Kind → ℕ → Worker → ℕ
one_sender kind id k = if is_for kind id k && not k.is_reconciling then 1 else 0

pub calls-split :
    (kind : Kind) (id : ℕ) (k : Worker) (before after xs : List Worker)
    → xs ≡ before ++ k ∷ after
    → calls kind id xs ≡ one kind id k + calls kind id (before ++ after)
calls-split kind id k before after xs e = rw e (
    omega (
      arith,
      total-append (one kind id) before (k ∷ after),
      total-append (one kind id) before after,
    ))

pub senders-split :
    (kind : Kind) (id : ℕ) (k : Worker) (before after xs : List Worker)
    → xs ≡ before ++ k ∷ after
    → senders kind id xs ≡ one_sender kind id k + senders kind id (before ++ after)
senders-split kind id k before after xs e = rw e (
    omega (
      arith,
      total-append (one_sender kind id) before (k ∷ after),
      total-append (one_sender kind id) before after,
    ))

pub senders-calls :
    (kind : Kind) (id : ℕ) (xs : List Worker) → senders kind id xs ≤ calls kind id xs
senders-calls kind id [] = omega arith
senders-calls kind id (k ∷ xs) = ground (arith, senders-calls kind id xs)

kind_eq_refl : (kind : Kind) → kind_eq kind kind ≡ true
kind_eq_refl draft = refl
kind_eq_refl template = refl

of_kind_eq : (a b : Kind) → kind_eq a b ≡ true → b ≡ a
of_kind_eq draft draft h = refl
of_kind_eq template template h = refl
of_kind_eq draft template h = ground arith
of_kind_eq template draft h = ground arith

is_for_own : (k : Worker) → is_for k.kind k.operation.id k ≡ true
is_for_own k = ground (arith, kind_eq_refl k.kind)

pub of_is_for :
    (kind : Kind) (id : ℕ) (k : Worker)
    → is_for kind id k ≡ true
    → (k.kind ≡ kind) × (k.operation.id ≡ id)
of_is_for kind id k h = (of_kind_eq kind k.kind (ground (arith, h)), ground (arith, h))

pub not_started : {o p : Option Status} → Move o p → started p ≡ false → started o ≡ false
not_started {o} {p} m h = elim (Bool-cases (started o)) [
  | inl begun ↦ ground (arith, h, Move-started m begun)
  | inr waits ↦ waits
]

-- A step that adds no call keeps the invariant.
pub Invariant-shrinks :
    (s t : State)
    → Invariant s
    → Moves s.store t.store
    → ((kind : Kind) (id : ℕ)
        → (all_calls kind id t ≤ all_calls kind id s)
          × (all_senders kind id t ≤ all_senders kind id s))
    → Invariant t
unfolding Invariant
Invariant-shrinks s t i m f kind id = (
  λ h. omega (arith, (f kind id).0, (i kind id).0 (not_started (m kind id) h)),
  omega (arith, (f kind id).1, (i kind id).1),
)

-- A call that is under way is on an operation that was claimed.
held-started :
    (s : State) (k : Worker)
    → Invariant s
    → 1 ≤ all_calls k.kind k.operation.id s
    → started (status_at k.kind k.operation.id s.store) ≡ true
unfolding Invariant
held-started s k i h = elim (Bool-cases (started (status_at k.kind k.operation.id s.store))) [
  | inl begun ↦ begun
  | inr waits ↦ ground (arith, h, (i k.kind k.operation.id).0 waits)
]

pub ready-started :
    (s : State) (k : Worker) (before after : List Worker)
    → Invariant s
    → s.ready ≡ before ++ k ∷ after
    → started (status_at k.kind k.operation.id s.store) ≡ true
ready-started s k before after i e =
    held-started s k i
      (ground (arith, is_for_own k, calls-split k.kind k.operation.id k before after s.ready e))

pub waiting-started :
    (s : State) (k : Worker) (before after : List Worker)
    → Invariant s
    → s.waiting ≡ before ++ k ∷ after
    → started (status_at k.kind k.operation.id s.store) ≡ true
waiting-started s k before after i e =
    held-started s k i
      (ground (arith, is_for_own k, calls-split k.kind k.operation.id k before after s.waiting e))

pub same-Moves : (s : Store) → Moves s s
same-Moves s kind j = stays (status_at kind j s)

-- A call that ends leaves fewer.
pub ready-less :
    (s : State) (k : Worker) (before after : List Worker)
    → s.ready ≡ before ++ k ∷ after
    → (kind : Kind) (id : ℕ)
    → (calls kind id (before ++ after) + (calls kind id s.waiting + calls kind id s.requests)
        ≤ all_calls kind id s)
      × (senders kind id (before ++ after) + calls kind id s.requests ≤ all_senders kind id s)
ready-less s k before after e kind id = (
  omega (arith, calls-split kind id k before after s.ready e),
  omega (arith, senders-split kind id k before after s.ready e),
)

pub waiting-less :
    (s : State) (k : Worker) (before after : List Worker)
    → s.waiting ≡ before ++ k ∷ after
    → (kind : Kind) (id : ℕ)
    → (calls kind id s.ready + (calls kind id (before ++ after) + calls kind id s.requests)
        ≤ all_calls kind id s)
      × (senders kind id s.ready + calls kind id s.requests ≤ all_senders kind id s)
waiting-less s k before after e kind id =
    (omega (arith, calls-split kind id k before after s.waiting e), omega arith)

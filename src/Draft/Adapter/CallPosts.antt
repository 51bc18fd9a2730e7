-- ===== src/Draft/Adapter/CallPosts.antt =====
-- How often a call of draft_operations.py (backend/integrations) writes to a provider.
use civic_loop.Draft.Adapter.EventPosts.{update-Sends}
use civic_loop.Draft.Adapter.CampaignPosts.{create-Sends, reconcile-Sends}
use civic_loop.Prelude.{
  ℕ, ◌≤◌, arith, Bool, true, false, List, some, Bool-cases, inl, inr, if◌then◌else◌, str_eq,
}
use civic_loop.Prelude.{[], ◌∷◌, total}
use civic_loop.Draft.Adapter.Call.{Call}
use civic_loop.Draft.System.{State, Reach, calls, is_for}
use civic_loop.Draft.System.Once.{requested_once}
use civic_loop.Draft.{Contracts, Receipt, Kind, draft, template, Execution}
use civic_loop.Draft.Dispatch.{Worker}
use civic_loop.Draft.Payload.{Library}
use civic_loop.Draft.Adapter.{Wire, Credential}
use civic_loop.Draft.Adapter.Posts.{Sends, posts}
use civic_loop.Draft.Adapter.Dispatch.{iterable_call, call_for, provider_call}
use civic_loop.Draft.Adapter.EventPosts
use civic_loop.Draft.Adapter.CampaignPosts
use civic_loop.Draft.Adapter.TemplatePosts

module _ (l : Library) (wire : Wire) (k : Credential) where
  abbrev allowed : Bool → ℕ
  allowed is_reconciling = if is_reconciling then 0 else 1

  picked-Sends :
      (b : Bool) (m n : Call Receipt) → Sends 1 m → Sends 1 n → Sends 1 (if b then m else n)
  picked-Sends true m n h j = h
  picked-Sends false m n h j = j

  iterable_call-Sends :
      (kind : Kind) (r : Bool) (x : Execution) → Sends (allowed r) (iterable_call l wire k kind r x)
  iterable_call-Sends draft false x = CampaignPosts.create-Sends l wire k _ _ _
  iterable_call-Sends draft true x = CampaignPosts.reconcile-Sends l wire k _ _ _ _ _
  iterable_call-Sends template false x = TemplatePosts.create-Sends l wire k _ _
  iterable_call-Sends template true x = TemplatePosts.reconcile-Sends l wire k _ _ _ _

  call_for-Sends :
      (iterable r : Bool) (kind : Kind) (x : Execution)
      → Sends (allowed r) (call_for l wire k iterable r kind x)
  call_for-Sends true r kind x = iterable_call-Sends kind r x
  call_for-Sends false false kind x =
      picked-Sends (str_eq x.action "create") _ _
        (EventPosts.create-Sends l wire k x.organization_id x.payload)
        (EventPosts.update-Sends l wire k x.organization_id x.event_id x.payload
          x.expected_readback_digest)
  call_for-Sends false true kind x =
      EventPosts.reconcile-Sends l wire k x.organization_id (some x.provider_id) x.payload
        x.request_digest x.action

  provider_call-Sends : (w : Worker) → Sends (allowed w.is_reconciling) (provider_call l wire k w)
  unfolding provider_call
  provider_call-Sends w = call_for-Sends w.is_iterable w.is_reconciling w.kind w.operation

module _ (l : Library) (wires : Worker → Wire) (leases : Worker → Credential) where
  -- The requests to write that a call sends, if it is on that operation
  abbrev pub written : Kind → ℕ → Worker → ℕ
  written kind id w =
      if is_for kind id w then posts (provider_call l (wires w) (leases w) w []).1 else 0

  written-le :
      (kind : Kind) (id : ℕ) (w : Worker) → written kind id w ≤ (if is_for kind id w then 1 else 0)
  written-le kind id w = elim (Bool-cases w.is_reconciling) [
    | inl reads ↦ ground (arith, reads, provider_call-Sends l (wires w) (leases w) w [])
    | inr writes ↦ ground (arith, writes, provider_call-Sends l (wires w) (leases w) w [])
  ]

  total-le :
      (kind : Kind) (id : ℕ) (ws : List Worker) → total (written kind id) ws ≤ calls kind id ws
  total-le kind id [] = omega arith
  total-le kind id (w ∷ ws) = omega (arith, written-le kind id w, total-le kind id ws)

  -- Whatever runs in whatever order, and whatever the providers answer, at most one request to write
  -- reaches a provider for each draft or template, over all calls that were sent for it; and any call
  -- writes at most once, one that reconciles never.
  pub written_once :
      (c : Contracts) (s : State) (kind : Kind) (id : ℕ) (w : Worker)
      → Reach c s
      → (total (written kind id) s.requests ≤ 1)
        × (posts (provider_call l (wires w) (leases w) w []).1
            ≤ (if w.is_reconciling then 0 else 1))
  written_once c s kind id w r = (
    omega (arith, total-le kind id s.requests, requested_once c s kind id r),
    omega (arith, provider_call-Sends l (wires w) (leases w) w []),
  )

-- ===== src/Draft/Adapter/Dispatch.antt =====
-- The requests of draft_operations.py (backend/integrations) to the adapters: what `execute_draft`,
-- `reconcile_draft` and `_execute_iterable` call.

use civic_loop.Prelude.{String, Bool, true, false, Option, none, some, str_eq, if◌then◌else◌}
use civic_loop.Json.{Json}
use civic_loop.Draft.{Kind, draft, template, Receipt, Execution}
use civic_loop.Draft.Dispatch.{Worker}
use civic_loop.Draft.Payload.{Library}
use civic_loop.Draft.Adapter.{Wire, Credential, value_of}
use civic_loop.Draft.Adapter.Call.{Call}
use civic_loop.Draft.Adapter.Campaign.{create, reconcile, fields_of}
use civic_loop.Draft.Adapter.Eventbrite
use civic_loop.Draft.Adapter.Campaign
use civic_loop.Draft.Adapter.Template

abbrev or_none : String → Option String
or_none s = if str_eq s "" then none else some s

-- `operation.provider_configuration[key]`, of a configuration that has the key
abbrev configured : String → Execution → Json
configured key x = value_of key (fields_of x.provider_configuration)

module _ (l : Library) (wire : Wire) (k : Credential) where
  abbrev pub dispatch_event : Execution → Call Receipt
  dispatch_event x =
      if str_eq x.action "create"
      then Eventbrite.create l wire k x.organization_id x.payload
      else Eventbrite.update l wire k x.organization_id x.event_id x.payload
          x.expected_readback_digest

  abbrev pub reconcile_event : Execution → Call Receipt
  reconcile_event x =
      Eventbrite.reconcile l wire k x.organization_id (some x.provider_id) x.payload
        x.request_digest x.action

  abbrev pub iterable_call : Kind → Bool → Execution → Call Receipt
  iterable_call draft false x =
      Campaign.create l wire k x.payload (configured "expected_template_digest" x)
        (configured "region" x)
  iterable_call draft true x =
      Campaign.reconcile l wire k (some x.provider_id) x.payload x.request_digest
        (configured "expected_template_digest" x) (configured "region" x)
  iterable_call template false x = Template.create l wire k x.payload (configured "region" x)
  iterable_call template true x =
      Template.reconcile l wire k x.payload x.request_digest (or_none x.provider_id)
        (configured "region" x)

  abbrev pub call_for : Bool → Bool → Kind → Execution → Call Receipt
  call_for true is_reconciling kind x = iterable_call kind is_reconciling x
  call_for false false kind x = dispatch_event x
  call_for false true kind x = reconcile_event x

  unfoldable pub provider_call : Worker → Call Receipt
  provider_call w = call_for w.is_iterable w.is_reconciling w.kind w.operation

-- ===== src/Draft/Adapter/Confirmed.antt =====
-- What a receipt of the Eventbrite adapter (backend/integrations/eventbrite_drafts.py) says.
use civic_loop.Draft.Adapter.ReadBack.{ReadBack}
use civic_loop.Draft.Adapter.Gives.{Gives}
use civic_loop.Prelude.Result.{ok}
use civic_loop.Prelude.{◌≡◌, String, Bool, true, false, List, str_eq, if◌then◌else◌}
use civic_loop.Json.{Json}
use civic_loop.Draft.{Execution, Receipt}
use civic_loop.Draft.Payload.{Library}
use civic_loop.Draft.Payload.Eventbrite.{validate_payload}
use civic_loop.Draft.Adapter.{Request, Wire}

IsConfirmed : Receipt → Type 0
IsConfirmed r = str_eq r.outcome "CONFIRMED" ≡ true

module _ (l : Library) (wire : Wire) where
  abbrev IfConfirmed : String → String → Json → Receipt → List Request → Type 0
  IfConfirmed organization_id event_id payload r log =
      IsConfirmed r → ReadBack l wire organization_id event_id payload r log

  -- That event, read back with the payload that the validator made
  abbrev pub Sent : String → Json → Bool → String → Receipt → List Request → Type 0
  Sent organization_id payload is_new event_id r log =
      (valid : Json) × (validate_payload l payload is_new ≡ ok valid)
      × ReadBack l wire organization_id event_id valid r log

  -- The event that a call is on: it is the caller's, but for a new one
  abbrev pub called_event : Bool → Execution → String → String
  called_event true x made = x.provider_id
  called_event false x made = if str_eq x.action "create" then made else x.event_id

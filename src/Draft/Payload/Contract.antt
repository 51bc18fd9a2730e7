-- ===== src/Draft/Payload/Contract.antt =====
-- The interface that draft_operations.py uses of the adapters, filled by their own functions
-- (backend/integrations/eventbrite_drafts.py, iterable_drafts.py, iterable_templates.py).
use civic_loop.Draft.{Contracts}
use civic_loop.Draft.Payload.{Library}
use civic_loop.Draft.Payload.Eventbrite.{validate_payload, compute_request_digest}
use civic_loop.Draft.Payload.Iterable.{campaign_digest}
use civic_loop.Draft.Payload.Template.{payload_version, author_payload, template_digest}

abbrev pub contracts_of : Library → Contracts
contracts_of l = record {
  sha256 = l.sha256;
  id_text = l.id_text;
  validate_payload = validate_payload l;
  request_digest = compute_request_digest l;
  payload_version = payload_version;
  author_payload = author_payload l;
  template_request_digest = template_digest l;
  campaign_request_digest = campaign_digest l;
}

-- ===== src/Draft/Tests/Receipts.antt =====
-- The adapters' calls at the draft of the tests.
use civic_loop.Prelude.{◌≤◌, true, false, some, List, [], ◌∷◌, total}
use civic_loop.Json.{Json, null, flag, str, obj, end, field}
use civic_loop.Draft.{draft}
use civic_loop.Draft.Adapter.{http_get, Request, answered, Wire, Credential}
use civic_loop.Draft.Adapter.Posts.{posts}
use civic_loop.Draft.Adapter.Eventbrite.{create_request, event_request}
use civic_loop.Draft.Adapter.Dispatch.{provider_call}
use civic_loop.Draft.Adapter.CallPosts.{written, written_once}
use civic_loop.Draft.Tests.{contracts, library, at_time, worker, executing_row}
use civic_loop.Draft.Tests.Runs.{last_state, reached}

abbrev lease : Credential
lease = record {
  provider = "eventbrite";
  purpose = "eventbrite_draft_write";
  has_workflow = true;
  token = some "k";
}

-- The provider's event, with the fields of the payload
abbrev stored_event : Json
stored_event = obj (
    field "id" (str "77") (
      field "organization_id" (str "12") (
        field "status" (str "draft") (
          field "name"
            (obj (field "text" (str "Spring fair") (field "html" (str "Spring fair") end)))
            (field "start" (at_time "2026-05-01T10:00:00Z") (
              field "end" (at_time "2026-05-01T10:00:00.0Z") (
                field "currency" (str "USD")
                  (field "listed" (flag false) (field "shareable" (flag false) end)))))))))

abbrev wire : Wire
wire log r = answered 200 400 (some stored_event)

abbrev sent : List Request
sent = event_request http_get "77" null ∷ create_request "12" executing_row.payload ∷ []

written_once_example :
    (total (written library (λ w. wire) (λ w. lease) draft 11) last_state.requests ≤ 1)
    × (posts (provider_call library wire lease worker []).1 ≤ 1)
written_once_example =
    written_once library (λ w. wire) (λ w. lease) contracts last_state draft 11 worker reached

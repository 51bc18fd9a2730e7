-- ===== src/Draft/Adapter/Eventbrite.antt =====
-- `EventbriteDraftAdapter` of backend/integrations/eventbrite_drafts.py.
use civic_loop.Prelude.{
  ℕ, String, Bool, true, false, not, ◌&&◌, ◌||◌, Option, none, some, List, [], ◌∷◌, str_eq,
  if◌then◌else◌,
}
use civic_loop.Json.{Json, Fields, null, str, obj, end, field}
use civic_loop.Json.Render.{render, canonical_style}
use civic_loop.Draft.{Receipt}
use civic_loop.Draft.Review.{json_eq}
use civic_loop.Draft.Service.{is_digest}
use civic_loop.Draft.Payload.{Library}
use civic_loop.Draft.Payload.Eventbrite.{is_identifier, validate_payload, compute_request_digest}
use civic_loop.Draft.Adapter.{
  category, Method, http_get, http_post, event, organization_events, Request, Wire, is_rejection,
  Credential, credential_invalid, value_of, is_null, is_true, is_text, unknown_receipt,
  confirmed_receipt,
}
use civic_loop.Draft.Adapter.Call.{Call, ◌>>=◌, ◌>>◌, return, raise, lift, require, attempt, send}

-- `MAX_RESPONSE_BYTES`
abbrev max_event_bytes : ℕ
max_event_bytes = 65_536

-- The keys of an event that its fingerprint has, in order
abbrev readback_keys : List String
readback_keys =
    "changed" ∷ "currency" ∷ "end" ∷ "id" ∷ "listed" ∷ "name" ∷ "online_event" ∷ "organization_id"
    ∷ "published" ∷ "shareable" ∷ "start" ∷ "status" ∷ "summary" ∷ "venue_id" ∷ []

abbrev pub selected : List String → Fields → Fields
selected [] fs = end
selected (k ∷ ks) fs = field k (value_of k fs) (selected ks fs)

-- `{k: actual.get(k) for k in expected}`
abbrev narrowed : Fields → Fields → Fields
narrowed end actual = end
narrowed (field k v fs) actual = field k (value_of k actual) (narrowed fs actual)

abbrev narrow : Json → Json → Json
narrow (obj expected) (obj actual) = obj (narrowed expected actual)
narrow expected actual = actual

-- Every field that was sent is read back.
unfoldable pub reads_back : Fields → Fields → Bool
reads_back end actual = true
reads_back (field k v fs) actual = json_eq (narrow v (value_of k actual)) v && reads_back fs actual

abbrev pub event_fields : Json → Fields
event_fields (obj (field k (obj fs) rest)) = fs
event_fields _ = end

abbrev pub text_id : Json → Call String
text_id (str s) = if is_identifier s then return s else raise "invalid_request"
text_id _ = raise "invalid_request"

abbrev pub mismatched : String → String → Fields → String → Bool
mismatched organization_id event_id fs provider_id =
    not (str_eq provider_id event_id)
    || not (is_text (value_of "organization_id" fs) organization_id)

abbrev pub unsafe_state : Fields → Bool
unsafe_state fs =
    not (is_text (value_of "status" fs) "draft")
    || (not (is_null (value_of "published" fs))
        || (is_true (value_of "is_series" fs)
            || (is_true (value_of "is_series_parent" fs)
                || not (is_null (value_of "series_id" fs)))))

-- `_draft`, of an event whose id is known
unfoldable pub check_draft : String → String → Fields → Call (Unit {0})
check_draft organization_id event_id fs = do
  provider_id ← text_id (value_of "id" fs)
  require (not (mismatched organization_id event_id fs provider_id)) "identity_mismatch"
  require (not (unsafe_state fs)) "unsafe_provider_state"

abbrev pub event_request : Method → String → Json → Request
event_request method event_id payload = record {
  method = method;
  target = event event_id;
  region = null;
  payload = payload;
}

abbrev pub create_request : String → Json → Request
create_request organization_id payload = record {
  method = http_post;
  target = organization_events organization_id;
  region = null;
  payload = payload;
}

-- What is left once a request was sent: a rejection is raised, and all else may have written.
abbrev pub after_failure : Option String → String → String → Call Receipt
after_failure event_id digest category =
    if is_rejection category
    then raise category
    else return (unknown_receipt event_id none digest category)

module _ (l : Library) (wire : Wire) where
  -- `readback_digest`
  unfoldable pub readback_digest : Fields → String
  readback_digest fs = l.sha256 (render canonical_style (obj (selected readback_keys fs)))

  -- `_request`: both paths are made of an id
  abbrev pub request : String → Request → Call Fields
  request id r = do require (is_identifier id) "invalid_request"; send wire max_event_bytes r

  abbrev pub read_event : String → Call Fields
  read_event event_id = request event_id (event_request http_get event_id null)

  -- `_confirm`, in its `try`
  abbrev pub read_back : String → String → Json → String → Call Receipt
  read_back organization_id event_id payload digest = do
    fs ← read_event event_id
    check_draft organization_id event_id fs
    require (reads_back (event_fields payload) fs) "readback_mismatch"
    return (confirmed_receipt event_id "draft" digest (readback_digest fs))

  unfoldable pub confirm : String → String → Json → String → Call Receipt
  confirm organization_id event_id payload digest =
      attempt (read_back organization_id event_id payload digest)
        (λ category. return (unknown_receipt (some event_id) none digest category)) return

  abbrev pub credential_checked : Credential → Call (Unit {0})
  credential_checked k =
      require (not (credential_invalid "eventbrite" "eventbrite_draft_write" k))
        "invalid_credential"

  -- The new event is checked before it is read back.
  abbrev pub created : String → Json → String → Fields → Call Receipt
  created organization_id payload digest fs =
      attempt (text_id (value_of "id" fs)) (after_failure none digest) λ event_id.
        attempt (check_draft organization_id event_id fs) (after_failure (some event_id) digest)
          λ _. confirm organization_id event_id payload digest

  unfoldable pub create : Credential → String → Json → Call Receipt
  create k organization_id payload = do
    valid ← lift (validate_payload l payload true)
    digest ← lift (compute_request_digest l "create" organization_id none valid)
    credential_checked k
    attempt (request organization_id (create_request organization_id valid))
        (after_failure none digest) (created organization_id valid digest)

  abbrev pub updated : String → String → Json → String → Fields → Call Receipt
  updated organization_id event_id payload digest fs =
      attempt (check_draft organization_id event_id fs) (after_failure (some event_id) digest)
        λ _. confirm organization_id event_id payload digest

  unfoldable pub update : Credential → String → String → Json → String → Call Receipt
  update k organization_id event_id payload expected = do
    valid ← lift (validate_payload l payload false)
    digest ← lift (compute_request_digest l "update" organization_id (some event_id) valid)
    require (is_digest expected) "invalid_request"
    credential_checked k
    before ← read_event event_id
    check_draft organization_id event_id before
    require (str_eq (readback_digest before) expected) "stale_revision"
    attempt (request event_id (event_request http_post event_id valid))
        (after_failure (some event_id) digest) (updated organization_id event_id valid digest)

  abbrev pub updated_event : String → Option String → Option String
  updated_event action event_id = if str_eq action "update" then event_id else none

  abbrev pub reconciled : Credential → String → Option String → Json → String → Call Receipt
  reconciled k organization_id none payload digest =
      return (unknown_receipt none none digest "human_reconciliation_required")
  reconciled k organization_id (some event_id) payload digest = do
    require (is_identifier event_id) "invalid_request"
    credential_checked k
    confirm organization_id event_id payload digest

  unfoldable pub reconcile :
      Credential → String → Option String → Json → String → String → Call Receipt
  reconcile k organization_id event_id payload request_digest action = do
    valid ← lift (validate_payload l payload (str_eq action "create"))
    digest ←
        lift (compute_request_digest l action organization_id (updated_event action event_id) valid)
    require (str_eq digest request_digest) "invalid_request"
    reconciled k organization_id event_id valid digest

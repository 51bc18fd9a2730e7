-- ===== src/Draft/Adapter.antt =====
-- The provider adapters (backend/integrations/eventbrite_drafts.py, iterable_drafts.py and
-- iterable_templates.py): their requests, and what `_request` makes of a response. The network is a
-- parameter that answers a request after those that were sent before. The lease of the secret is fresh.
pub mod Call
pub mod Eventbrite
pub mod Campaign
pub mod Template
pub mod Dispatch
pub mod Posts
pub mod EventPosts
pub mod CampaignPosts
pub mod TemplatePosts
pub mod CallPosts
pub mod Gives
pub mod ReadBack
pub mod Confirmed
use civic_loop.Prelude.Result.{Result, ok, err, ◌>>=◌, ◌>>◌, refuse}
use civic_loop.Prelude.{
  ℕ, String, Bool, true, false, not, ◌&&◌, ◌||◌, Option, none, some, List, [], ◌∷◌, any, leb, ltb,
  ◌==◌, str_eq, if◌then◌else◌,
}
use civic_loop.Json.{Json, Fields, null, flag, num, float, str, arr, obj, get}
use civic_loop.Draft.{Error, provider_error, Receipt}
use civic_loop.Draft.Payload.{every_char, between}

pub data Method : Type 0 where
  http_get http_post : Method

-- The paths that the adapters name
pub data Target : Type 0 where
  event organization_events client_template : String → Target
  campaign template : ℕ → Target
  campaigns_create templates_upsert : Target

pub record Request : Type 0 where
  pub method : Method
  pub target : Target
  pub region : Json
  pub payload : Json

-- A response with its status, the number of its bytes and what `json.loads` reads, or an error
pub data Response : Type 0 where
  answered : ℕ → ℕ → Option Json → Response
  http_error : ℕ → Response
  timed_out unreachable : Response

abbrev pub Wire : Type 0
Wire = List Request → Request → Response

abbrev pub category : ℕ → String
category code =
    if leb 300 code && ltb code 400
    then "redirect"
    else if code == 400
    then "provider_validation"
    else if code == 401
    then "authentication"
    else if code == 403
    then "forbidden"
    else if code == 404
    then "not_found"
    else if code == 429
    then "rate_limited"
    else "provider_error"

abbrev invalid_response : Error
invalid_response = provider_error "invalid_response"

abbrev object_of : Option Json → Result Error Fields
object_of (some (obj fs)) = ok fs
object_of _ = err invalid_response

-- What `_request` returns or raises
unfoldable pub body_of : ℕ → Response → Result Error Fields
body_of limit (answered status bytes value) = do
  refuse (not (status == 200)) invalid_response
  refuse (ltb limit bytes) invalid_response
  object_of value
body_of limit (http_error code) = err (provider_error (category code))
body_of limit timed_out = err (provider_error "timeout")
body_of limit unreachable = err (provider_error "network")

-- The categories by which the provider has refused a request
unfoldable pub is_rejection : String → Bool
is_rejection s = any (str_eq s) (
    "provider_validation" ∷ "authentication" ∷ "forbidden" ∷ "not_found" ∷ "rate_limited"
    ∷ "redirect" ∷ [])

-- The lease of a secret: its text, if it is one
pub record Credential : Type 0 where
  pub provider : String
  pub purpose : String
  pub has_workflow : Bool
  pub token : Option String

abbrev token_valid : Option String → Bool
token_valid none = false
token_valid (some s) = not (str_eq s "") && every_char (between 33 126) s

-- `_token` of the adapter of a provider, up to the operation
abbrev pub credential_invalid : String → String → Credential → Bool
credential_invalid provider purpose k =
    not (str_eq k.provider provider)
    || (not (str_eq k.purpose purpose) || (not k.has_workflow || not (token_valid k.token)))

-- `value.get(key)`, where a key that is missing is None
abbrev pub value_of : String → Fields → Json
value_of key fs = or_none (get key fs)
  where
    or_none : Option Json → Json
    or_none none = null
    or_none (some v) = v

abbrev pub is_null : Json → Bool
is_null null = true
is_null _ = false

abbrev pub is_true : Json → Bool
is_true (flag true) = true
is_true _ = false

abbrev pub is_text : Json → String → Bool
is_text (str s) t = str_eq s t
is_text _ t = false

abbrev pub unknown_receipt : Option String → Option String → String → String → Receipt
unknown_receipt provider_id status digest error_category = record {
  outcome = "UNKNOWN";
  provider_id = provider_id;
  provider_status = status;
  request_digest = digest;
  readback_digest = none;
  error_category = some error_category;
}

abbrev pub confirmed_receipt : String → String → String → String → Receipt
confirmed_receipt provider_id status digest readback = record {
  outcome = "CONFIRMED";
  provider_id = some provider_id;
  provider_status = some status;
  request_digest = digest;
  readback_digest = some readback;
  error_category = none;
}

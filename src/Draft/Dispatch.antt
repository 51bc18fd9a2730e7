-- ===== src/Draft/Dispatch.antt =====
-- `execute_draft`, `reconcile_draft`, `execute_template` and `reconcile_template` of
-- backend/integrations/draft_operations.py, what is stored of the provider's reply.
-- What the provider replies is an argument.
use civic_loop.Prelude.Result.{Result, ok, err, ◌>>=◌, ◌>>◌, refuse}
use civic_loop.Prelude.{
  ℕ, String, Bool, true, false, not, ◌&&◌, ◌||◌, Option, none, some, List, [], ◌∷◌, any, str_eq,
  if◌then◌else◌,
}
use civic_loop.Draft.{
  Error, value_error, provider_error, succeeded, failed, unknown, Kind, draft, template, User,
  Receipt, Execution, Store,
}
use civic_loop.Draft.Rows.{rows, with_rows, save_execution, update_ended}

-- A call that has passed its claim, with the row as it holds it in memory.
pub record Worker : Type 0 where
  pub kind : Kind
  pub operation : Execution
  pub is_iterable : Bool
  pub is_reconciling : Bool
  pub session_id : ℕ
  pub user : User

-- What the provider's adapter does: it returns a receipt, something else, or raises its own error
-- of a category, or another one.
pub data Reply : Type 0 where
  receipt : Receipt → Reply
  untyped : Reply
  refused : String → Reply
  failure : Reply

abbrev known : Option String → Bool
known none = false
known (some s) = not (str_eq s "")

abbrev differs : Option String → String → Bool
differs none s = true
differs (some t) s = not (str_eq t s)

-- A set provider id that is not the receipt's
abbrev misnamed : Option String → String → Bool
misnamed r id = known r && differs r id

abbrev is_status : Option String → List String → Bool
is_status none names = false
is_status (some s) names = any (str_eq s) names

-- The refusals of `_store_receipt` and `_iterable_store_receipt`
abbrev unconfirmed : Receipt → List String → Bool
unconfirmed r names =
    str_eq r.outcome "CONFIRMED"
    && (not (known r.provider_id)
        || (not (is_status r.provider_status names) || not (known r.readback_digest)))

abbrev foreign : Execution → Receipt → Bool
foreign operation r =
    not (str_eq r.request_digest operation.request_digest)
    || (not (str_eq r.outcome "CONFIRMED" || str_eq r.outcome "UNKNOWN")
        || (not (str_eq operation.provider_id "") && misnamed r.provider_id operation.provider_id))

abbrev status_names : Bool → Kind → List String
status_names false kind = "draft" ∷ []
status_names true draft = "Draft" ∷ "Ready" ∷ []
status_names true template = "template" ∷ []

unfoldable pub receipt_invalid : Bool → Kind → Execution → Receipt → Bool
receipt_invalid is_iterable kind operation r =
    foreign operation r
    || ((not is_iterable
          && (str_eq operation.action "update" && misnamed r.provider_id operation.event_id))
        || unconfirmed r (status_names is_iterable kind))

abbrev or_kept : Option String → String → String
or_kept none s = s
or_kept (some t) s = if str_eq t "" then s else t

abbrev or_empty : Option String → String
or_empty none = ""
or_empty (some t) = t

unfoldable pub with_receipt : ℕ → Receipt → Execution → Execution
with_receipt now r operation = record operation {
  receipt = some r;
  provider_id = or_kept r.provider_id operation.provider_id;
  status = if str_eq r.outcome "CONFIRMED" then succeeded else unknown;
  error_category = or_empty r.error_category;
  completed_at = some now;
}

-- `_store_receipt` and `_iterable_store_receipt`, on the table of the worker
unfoldable pub store_reply : ℕ → Worker → Reply → List Execution → Result Error (List Execution)
store_reply now k (receipt r) xs = do
  refuse (receipt_invalid k.is_iterable k.kind k.operation r) value_error
  save_execution (with_receipt now r k.operation) xs
store_reply now k (refused category) xs = err (provider_error category)
store_reply now k _ xs = err value_error

-- The categories that say that nothing was created
unfoldable pub is_definite : String → Bool
is_definite category = any (str_eq category) (
    "provider_validation" ∷ "authentication" ∷ "forbidden" ∷ "not_found" ∷ "rate_limited"
    ∷ "redirect" ∷ "invalid_request" ∷ "invalid_credential" ∷ "stale_revision"
    ∷ "unsafe_provider_state" ∷ "identity_mismatch" ∷ [])

abbrev pub unconfirmed_dispatch : ℕ → Worker → List Execution → Result Error (List Execution)
unconfirmed_dispatch now k xs = update_ended k.operation.id unknown "dispatch_unconfirmed" now xs

-- `except Exception` of a call that stores a reply
abbrev pub or_unknown :
    ℕ → Worker → Result Error (List Execution) → List Execution → Result Error (List Execution)
or_unknown now k (ok ys) xs = ok ys
or_unknown now k (err e) xs = unconfirmed_dispatch now k xs

-- `except EventbriteDraftError`
abbrev pub record_error : ℕ → Worker → String → List Execution → Result Error (List Execution)
record_error now k category xs =
    if is_definite category
    then update_ended k.operation.id failed category now xs
    else unconfirmed_dispatch now k xs

-- What an Eventbrite dispatch makes of a reply
abbrev pub eventbrite_reply : ℕ → Worker → Reply → List Execution → Result Error (List Execution)
eventbrite_reply now k (refused category) xs = record_error now k category xs
eventbrite_reply now k reply xs = or_unknown now k (store_reply now k reply xs) xs

-- The end of a call once the provider has replied; a reconciliation with Eventbrite has no handler.
abbrev pub finish_rows :
    Bool → Bool → ℕ → Worker → Reply → List Execution → Result Error (List Execution)
finish_rows true is_reconciling now k reply xs = or_unknown now k (store_reply now k reply xs) xs
finish_rows false false now k reply xs = eventbrite_reply now k reply xs
finish_rows false true now k reply xs = store_reply now k reply xs

unfoldable pub finish : ℕ → Worker → Reply → Store → Result Error Store
finish now k reply s = do
  xs ← finish_rows k.is_iterable k.is_reconciling now k reply (rows k.kind s)
  ok (with_rows k.kind xs s)

-- The end of a call whose checks or lease failed with an error
abbrev pub abort_rows :
    Bool → Bool → ℕ → Worker → Error → List Execution → Result Error (List Execution)
abort_rows false true now k e xs = err e
abort_rows _ _ now k e xs = unconfirmed_dispatch now k xs

unfoldable pub abort : ℕ → Worker → Error → Store → Result Error Store
abort now k e s = do
  xs ← abort_rows k.is_iterable k.is_reconciling now k e (rows k.kind s)
  ok (with_rows k.kind xs s)

-- ===== src/Draft/Adapter/ReadBack.antt =====
-- What `_confirm` of the Eventbrite adapter (backend/integrations/eventbrite_drafts.py) has read
-- when it confirms an event.
use civic_loop.Draft.Validation.{checked}
use civic_loop.Prelude.Result.{Result, ok, err, of_ok}
use civic_loop.Prelude.{
  ◌≡◌, refl, sym, ap, ◌∙◌, arith, String, Bool, true, false, not, ◌||◌, some, List, ◌∷◌, str_eq,
  if◌then◌else◌,
}
use civic_loop.Json.{Json, Fields, null, flag, num, float, str, arr, obj}
use civic_loop.Draft.{Error, Receipt}
use civic_loop.Draft.Payload.{Library}
use civic_loop.Draft.Payload.Eventbrite.{is_identifier}
use civic_loop.Draft.Adapter.{category, http_get, Request, Wire, body_of, value_of, is_text}
use civic_loop.Draft.Adapter.Call.{Call, then_call, return, raise, require, send}
use civic_loop.Draft.Adapter.Eventbrite.{
  text_id, check_draft, unsafe_state, mismatched, event_request, read_event, read_back, reads_back,
  event_fields, readback_digest,
}

unnegated : {b : Bool} → not b ≡ true → b ≡ false
unnegated h = ground arith

-- A call that returns has run its first part, and goes on with its result.
pub of_then_call :
    {A B : Type 0} (f : A → Call B) (p : Result Error A × List Request) {y : B} {log : List Request}
    → then_call f p ≡ (ok y, log)
    → (x : A) × (between : List Request) × (p ≡ (ok x, between)) × (f x between ≡ (ok y, log))
of_then_call f (ok x, log) h = (x, log, refl, h)
of_then_call f (err e, log) h = ground arith

of_require :
    (b : Bool) (s : String) {log : List Request} {x : Unit {0}} {after : List Request}
    → require b s log ≡ (ok x, after)
    → (b ≡ true) × (after ≡ log)
of_require true s h = (refl, ap (λ p. p.1) (sym h))
of_require false s h = ground arith

of_choice :
    (b : Bool) (s category : String) {log : List Request} {t : String} {after : List Request}
    → (if b then return s else raise category) log ≡ (ok t, after)
    → (s ≡ t) × (after ≡ log)
of_choice true s category h = (of_ok (ap (λ p. p.0) h), ap (λ p. p.1) (sym h))
of_choice false s category h = ground arith

of_text_id :
    (v : Json) {log : List Request} {s : String} {after : List Request}
    → text_id v log ≡ (ok s, after)
    → (v ≡ str s) × (after ≡ log)
of_text_id (str t) h =
    let (same, kept) = of_choice (is_identifier t) t "invalid_request" h in (ap str same, kept)
of_text_id null h = ground arith
of_text_id (flag b) h = ground arith
of_text_id (num z) h = ground arith
of_text_id (float t) h = ground arith
of_text_id (arr xs) h = ground arith
of_text_id (obj fs) h = ground arith

of_matched : (a b : Bool) → not (not a || not b) ≡ true → (a ≡ true) × (b ≡ true)
of_matched a b h = ground arith

of_check_draft :
    (organization_id event_id : String) (fs : Fields) {log : List Request} {x : Unit {0}}
    {after : List Request}
    → check_draft organization_id event_id fs log ≡ (ok x, after)
    → (is_text (value_of "id" fs) event_id ≡ true)
      × (is_text (value_of "organization_id" fs) organization_id ≡ true)
      × (unsafe_state fs ≡ false)
      × (after ≡ log)
unfolding check_draft
of_check_draft organization_id event_id fs {log} h =
    let (id, log1, named, h1) = of_then_call _ (text_id (value_of "id" fs) log) h in
    let (same, kept) = of_text_id (value_of "id" fs) named in
    let (_, log2, matched, h2) =
      of_then_call _
        (require (not (mismatched organization_id event_id fs id)) "identity_mismatch" log1) h1 in
    let (both, kept2) =
      of_require (not (mismatched organization_id event_id fs id)) "identity_mismatch" matched in
    let (own, org) =
      of_matched (str_eq id event_id) (is_text (value_of "organization_id" fs) organization_id)
        both in
    let (safe, kept3) = of_require (not (unsafe_state fs)) "unsafe_provider_state" h2 in
    (ap (λ v. is_text v event_id) same ∙ own, org, unnegated safe, kept3 ∙ kept2 ∙ kept)

module _ (l : Library) (wire : Wire) where
  -- The event was read last, and is the draft of the organisation, unpublished, with all that was sent.
  abbrev pub ReadBack : String → String → Json → Receipt → List Request → Type 0
  ReadBack organization_id event_id payload r log =
      (fs : Fields) × (before : List Request) × (log
        ≡ event_request http_get event_id null ∷ before)
      × (body_of 65_536 (wire before (event_request http_get event_id null)) ≡ ok fs)
      × (r.provider_id ≡ some event_id)
      × (is_text (value_of "id" fs) event_id ≡ true)
      × (is_text (value_of "organization_id" fs) organization_id ≡ true)
      × (unsafe_state fs ≡ false)
      × (reads_back (event_fields payload) fs ≡ true)
      × (r.readback_digest ≡ some (readback_digest l wire fs))

  of_read_event :
      (event_id : String) {log : List Request} {fs : Fields} {after : List Request}
      → read_event l wire event_id log ≡ (ok fs, after)
      → (after ≡ event_request http_get event_id null ∷ log)
        × (body_of 65_536 (wire log (event_request http_get event_id null)) ≡ ok fs)
  unfolding send
  of_read_event event_id {log} h =
      let (_, log1, passed, h1) =
        of_then_call _ (require (is_identifier event_id) "invalid_request" log) h in
      let (_, kept) = of_require (is_identifier event_id) "invalid_request" passed in
      let r = event_request http_get event_id null in
      (
        ap (λ p. p.1) (sym h1) ∙ ap (λ xs. r ∷ xs) kept,
        ap (λ xs. body_of 65_536 (wire xs r)) (sym kept) ∙ ap (λ p. p.0) h1,
      )

  pub read_back_lem :
      (organization_id event_id : String) (payload : Json) (digest : String) (log : List Request)
      {r : Receipt} {after : List Request}
      → read_back l wire organization_id event_id payload digest log ≡ (ok r, after)
      → ReadBack organization_id event_id payload r after
  read_back_lem organization_id event_id payload digest log h =
      let (fs, log1, was_read, h1) = of_then_call _ (read_event l wire event_id log) h in
      let (last, body) = of_read_event event_id was_read in
      let (_, log2, checked, h2) =
        of_then_call _ (check_draft organization_id event_id fs log1) h1 in
      let (own, org, safe, kept) = of_check_draft organization_id event_id fs checked in
      let (_, log3, same, h3) =
        of_then_call _ (require (reads_back (event_fields payload) fs) "readback_mismatch" log2)
          h2 in
      let (all_same, kept2) =
        of_require (reads_back (event_fields payload) fs) "readback_mismatch" same in
      let as_read = of_ok (ap (λ p. p.0) h3) in
      (
        fs,
        log,
        ap (λ p. p.1) (sym h3) ∙ kept2 ∙ kept ∙ last,
        body,
        ap (λ (x : Receipt). x.provider_id) (sym as_read),
        own,
        org,
        safe,
        all_same,
        ap (λ (x : Receipt). x.readback_digest) (sym as_read),
      )

-- ===== src/Draft/Payload/Authored.antt =====
-- A template that `author_payload` (backend/integrations/iterable_templates.py) has written is one
-- that `_iterable_review` (draft_operations.py) writes again.
use civic_loop.Prelude.Result.{
  ok, of_refuse, of_demand, of_bind, of_ok, refuse_pass, demand_pass, bind_pass,
}
use civic_loop.Prelude.{
  ℕ, String, true, false, not, ◌||◌, ◌==◌, some, ◌≡◌, refl, ◌∙◌, subst, arith, ◌⊎◌, inl, inr,
  ==_iff, Bool-cases, ltb,
}
use civic_loop.Json.{Json, obj, end, field, get}
use civic_loop.Json.Render.{render, byte_length, default_style}
use civic_loop.Draft.{key_error, Intent}
use civic_loop.Draft.Review.{item_of, sender_of}
use civic_loop.Draft.Payload.{Library, invalid_request}
use civic_loop.Draft.Payload.Template.{
  payload_version, template_valid, template_fields, validate_template_payload, message_of,
  sender_exact, body_text, authored, author_payload,
}

-- What passes the checks is answered as it is.
of_validated :
    (payload : Json) {answer : Json}
    → validate_template_payload payload ≡ ok answer
    → payload ≡ answer
unfolding validate_template_payload
of_validated payload h =
    let (version, _, h1) = of_bind (payload_version payload) h in
    let (fs, _, h2) = of_bind (template_fields payload) h1 in
    let (_, h3) = of_refuse (not (template_valid version fs)) invalid_request h2 in
    let (_, h4) =
      of_refuse (ltb 65_536 (byte_length (render (default_style true) payload))) invalid_request
        h3 in
    of_ok h4

abbrev sender_again : Json → Json → Json → Json → Json
sender_again from_email from_name reply_to message_type = obj (
    field "fromEmail" from_email (
      field "fromName" from_name
        (field "replyToEmail" reply_to (field "messageTypeId" message_type end))))

one_or_two : (n : ℕ) → not ((n == 1) || (n == 2)) ≡ false → (n ≡ 1) ⊎ (n ≡ 2)
one_or_two n h = elim (Bool-cases (n == 1)) [
  | inl one ↦ inl ((==_iff n 1).0 one)
  | inr other ↦ inr ((==_iff n 2).0 (ground (arith, other, h)))
]

authored-version :
    (l : Library) (intent : Intent) (kind : String) (n : ℕ) (a b c d e f : Json) (text : String)
    → (n ≡ 1) ⊎ (n ≡ 2)
    → payload_version (authored l intent kind n a b c d e f text) ≡ ok n
unfolding payload_version
authored-version l intent kind n a b c d e f text (inl one) = rw one refl
authored-version l intent kind n a b c d e f text (inr two) = rw two refl

written_again :
    (l : Library) (intent : Intent) (version : ℕ) (kind : String) (content : Json)
    (from_email from_name reply_to message_type subject body : Json) (text : String)
    (payload : Json)
    → not ((version == 1) || (version == 2)) ≡ false
    → message_of intent.operation_kind ≡ some kind
    → item_of intent.proposal.content kind ≡ ok content
    → item_of content "subject" ≡ ok subject
    → item_of content "body" ≡ ok body
    → body_text body ≡ ok text
    → validate_template_payload (
        authored l intent kind version from_email from_name reply_to message_type subject body text)
      ≡ ok payload
    → author_payload l intent (sender_again from_email from_name reply_to message_type) version
      ≡ ok payload
unfolding author_payload
written_again l intent version kind content from_email from_name reply_to message_type subject body
      text payload known kind_found content_found subject_found body_found text_found h =
    refuse_pass _ _ _ known
    ∙ demand_pass (message_of intent.operation_kind) _ _ kind_found
    ∙ bind_pass (item_of intent.proposal.content kind) _ content_found
    ∙ bind_pass (item_of content "subject") _ subject_found
    ∙ bind_pass (item_of content "body") _ body_found
    ∙ bind_pass (body_text body) _ text_found
    ∙ h

-- A template that was written for an intent and a sender, in a version, is of that version, and the
-- sender that is read back from it writes the same template for the same intent: the review of a
-- submitted template finds it as it was written.
pub author_payload_again :
    (l : Library) (intent : Intent) (sender : Json) (version : ℕ) (payload : Json)
    → author_payload l intent sender version ≡ ok payload
    → (payload_version payload ≡ ok version)
      × ((again : Json) × (sender_of payload ≡ ok again)
          × (author_payload l intent again version ≡ ok payload))
unfolding author_payload
author_payload_again l intent sender version payload h =
    let (known, h1) = of_refuse (not ((version == 1) || (version == 2))) invalid_request h in
    let (fs, _, h2) = of_bind (sender_exact sender) h1 in
    let (kind, kind_found, h3) = of_demand (message_of intent.operation_kind) invalid_request h2 in
    let (content, content_found, h4) = of_bind (item_of intent.proposal.content kind) h3 in
    let (from_email, _, h5) = of_demand (get "fromEmail" fs) key_error h4 in
    let (from_name, _, h6) = of_demand (get "fromName" fs) key_error h5 in
    let (reply_to, _, h7) = of_demand (get "replyToEmail" fs) key_error h6 in
    let (message_type, _, h8) = of_demand (get "messageTypeId" fs) key_error h7 in
    let (subject, subject_found, h9) = of_bind (item_of content "subject") h8 in
    let (body, body_found, h10) = of_bind (item_of content "body") h9 in
    let (text, text_found, h11) = of_bind (body_text body) h10 in
    let written =
      authored l intent kind version from_email from_name reply_to message_type subject body text in
    let same : written ≡ payload = of_validated written h11 in
    (
      subst (λ p. payload_version p ≡ ok version) same
          (authored-version l intent kind version from_email from_name reply_to message_type subject
            body text (one_or_two version known)),
      (
        sender_again from_email from_name reply_to message_type,
        subst (λ p. sender_of p ≡ ok (sender_again from_email from_name reply_to message_type)) same
            refl,
        written_again l intent version kind content from_email from_name reply_to message_type
            subject body text payload known kind_found content_found subject_found body_found
            text_found h11,
      ),
    )

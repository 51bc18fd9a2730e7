-- ===== src/Draft/Payload/Tests.antt =====
-- Payloads for the two providers, concretely.
use civic_loop.Prelude.Int.{pos}
use civic_loop.Prelude.Result.{ok, err}
use civic_loop.Prelude.{◌≡◌, refl, true, false, some}
use civic_loop.Json.{Json, flag, num, str, arr, obj, nil, item, end, field}
use civic_loop.Json.Render.{render}
use civic_loop.Launch.Text.{strip, decimal}
use civic_loop.Tool.{canonical}
use civic_loop.Draft.{Intent}
use civic_loop.Draft.Review.{sender_of}
use civic_loop.Draft.Tests.{intent}
use civic_loop.Draft.Payload.{Library, invalid_request}
use civic_loop.Draft.Payload.Eventbrite.{validate_payload, event_valid}
use civic_loop.Draft.Payload.Iterable.{validate_campaign, campaign_valid}
use civic_loop.Draft.Payload.Template.{
  payload_version, author_payload, validate_template_payload, template_valid, plain_html,
}
use civic_loop.Draft.Payload.Authored.{author_payload_again}

abbrev library : Library
library = record {
  sha256 = λ s. s;
  id_text = λ n. "1b4e28ba-2fa1-41d2-883f-0016d3cca427";
  moment = λ s. some 5;
  is_zone = λ s. true;
}

abbrev email_intent : Intent
email_intent = record intent {
  operation_kind = "create_iterable_email_draft";
  proposal = record intent.proposal {
    content = obj (
        field "invitation" (obj (field "subject" (str "Come") (field "body" (str "You & all") end)))
          end);
  };
}

abbrev sender : Json
sender = obj (
    field "messageTypeId" (num (pos 12)) (
      field "fromEmail" (str "team@civic.example")
        (field "replyToEmail" (str "team@civic.example") (field "fromName" (str "Team") end))))

abbrev template_payload : Json
template_payload = obj (
    field "clientTemplateId" (str "civicloop-1b4e28ba-2fa1-41d2-883f-0016d3cca427") (
      field "name" (str "CivicLoop invitation 1b4e28ba-2fa1-41d2-883f-0016d3cca427") (
        field "fromEmail" (str "team@civic.example") (
          field "fromName" (str "Team") (
            field "replyToEmail" (str "team@civic.example") (
              field "messageTypeId" (num (pos 12)) (
                field "subject" (str "Come") (
                  field "plainText" (str "You & all")
                    (field "html" (str "<p>You &amp; all</p>") end)))))))))

written : author_payload library email_intent sender 1 ≡ ok template_payload
unfolding author_payload validate_template_payload payload_version template_valid plain_html
    canonical strip render decimal
written = refl

author_payload_again_example :
    (payload_version template_payload ≡ ok 1)
    × ((again : Json) × (sender_of template_payload ≡ ok again)
        × (author_payload library email_intent again 1 ≡ ok template_payload))
author_payload_again_example =
    author_payload_again library email_intent sender 1 template_payload written

unsafe_subject :
    author_payload library
      (record email_intent {
        proposal = record intent.proposal {
          content = obj (
              field "invitation"
                (obj (field "subject" (str "{{x}}") (field "body" (str "b") end)))
                end);
        };
      })
      sender
      2
    ≡ err invalid_request
unfolding author_payload validate_template_payload payload_version template_valid plain_html
    canonical strip render decimal
unsafe_subject = refl

abbrev campaign : Json
campaign = obj (
    field "name" (str "Spring") (
      field "templateId" (num (pos 7)) (
        field "listIds" (arr (item (num (pos 1)) nil))
          (field "suppressionListIds" (arr nil) (field "scheduleSend" (flag false) end)))))

campaign_accepted : validate_campaign campaign ≡ ok campaign
unfolding validate_campaign campaign_valid strip render decimal
campaign_accepted = refl

renamed :
    validate_payload library
      (obj (field "event" (obj (field "name" (obj (field "html" (str "Fair") end)) end)) end))
      false
    ≡ ok (obj (field "event" (obj (field "name" (obj (field "html" (str "Fair") end)) end)) end))
unfolding validate_payload event_valid strip render decimal
renamed = refl

unnamed :
    validate_payload library (obj (field "event" (obj (field "summary" (str "Fair") end)) end)) true
    ≡ err invalid_request
unfolding validate_payload event_valid strip render decimal
unnamed = refl

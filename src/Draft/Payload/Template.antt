-- ===== src/Draft/Payload/Template.antt =====
-- backend/integrations/iterable_templates.py: the template that is written for a proposal, and its
-- checks. A dictionary that is spread into another is written field by field.
use civic_loop.Prelude.Result.{Result, ok, err, ◌>>=◌, ◌>>◌, refuse, demand}
use civic_loop.Prelude.{
  ℕ, String, Bool, true, false, not, ◌&&◌, ◌||◌, Option, none, some, List, [], ◌∷◌, any, leb, ltb,
  ◌==◌, str_eq, if◌then◌else◌,
}
use civic_loop.Json.{Json, Fields, flag, str, obj, end, field, get}
use civic_loop.Json.Render.{render, byte_length, canonical_style, default_style}
use civic_loop.Launch.Text.{concat, strip}
use civic_loop.Tool.{canonical}
use civic_loop.Draft.{Error, key_error, attribute_error, Intent}
use civic_loop.Draft.Review.{item_of, not_exact}
use civic_loop.Draft.Payload.{Library, invalid_request, every_char, between, is_digit, is_letter}
use civic_loop.Draft.Payload.Iterable.{number_of, region_of}
use Prim.Native.Char.{Char, code}
use Prim.Native.String.{◌++◌ as append, count}

abbrev legacy_fields : List String
legacy_fields =
    "clientTemplateId" ∷ "name" ∷ "fromEmail" ∷ "fromName" ∷ "replyToEmail" ∷ "subject" ∷ "html"
    ∷ "plainText" ∷ "messageTypeId" ∷ []

abbrev sender_fields : List String
sender_fields = "fromEmail" ∷ "fromName" ∷ "replyToEmail" ∷ "messageTypeId" ∷ []

abbrev marketing_footer : String
marketing_footer = "\n<p><a href=\"{{unsubscribeUrl}}\">Unsubscribe</a><br>{{physicalAddress}}</p>"

abbrev is_false : Option Json → Bool
is_false (some (flag false)) = true
is_false _ = false

unfoldable pub payload_version : Json → Result Error ℕ
payload_version (obj fs) =
    if not (not_exact legacy_fields fs)
    then ok 1
    else if not (not_exact ("cacheDataFeed" ∷ legacy_fields) fs)
        && is_false (get "cacheDataFeed" fs)
    then ok 2
    else err invalid_request
payload_version _ = err invalid_request

-- `html.escape(body, quote=True)` with line breaks after it
abbrev escaped_char : ℕ → Char → String
escaped_char n ch =
    if n == 38
    then "&amp;"
    else if n == 60
    then "&lt;"
    else if n == 62
    then "&gt;"
    else if n == 34
    then "&quot;"
    else if n == 39
    then "&#x27;"
    else if n == 10
    then "<br>\n"
    else String.◌∷◌ ch String.[]

abbrev escaped_html : String → String
escaped_html String.[] = ""
escaped_html (String.◌∷◌ ch s) = append (escaped_char (code ch) ch) (escaped_html s)

unfoldable pub plain_html : String → String
plain_html body = concat ("<p>" ∷ escaped_html body ∷ "</p>" ∷ [])

abbrev footer : ℕ → String
footer version = if version == 2 then marketing_footer else ""

abbrev any_char : (ℕ → Bool) → String → Bool
any_char p String.[] = false
any_char p (String.◌∷◌ ch s) = p (code ch) || any_char p s

-- Two characters in a row
abbrev starts_with : ℕ → String → Bool
starts_with n String.[] = false
starts_with n (String.◌∷◌ ch s) = code ch == n

abbrev has_double : ℕ → String → Bool
has_double n String.[] = false
has_double n (String.◌∷◌ ch s) = ((code ch == n) && starts_with n s) || has_double n s

-- `"{{"`, `"}}"`, `"[["` or `"]]"` in a text
abbrev has_mark : String → Bool
has_mark s = has_double 123 s || (has_double 125 s || (has_double 91 s || has_double 93 s))

-- The regular expression of an address: its local part, its domain and its top level.
abbrev is_local : ℕ → Bool
is_local n =
    is_letter n
    || (is_digit n
        || any (λ m. m == n)
            (46 ∷ 33 ∷ 35 ∷ 36 ∷ 37 ∷ 38 ∷ 39 ∷ 42 ∷ 43 ∷ 47 ∷ 61 ∷ 63 ∷ 94 ∷ 95 ∷ 96 ∷ 123 ∷ 124
              ∷ 125 ∷ 126 ∷ 45 ∷ []))

abbrev is_domain : ℕ → Bool
is_domain n = is_letter n || (is_digit n || ((n == 46) || (n == 45)))

abbrev top_level : String → Bool
top_level s = between 2 63 (count s) && every_char is_letter s

abbrev domain_from : Bool → String → Bool
domain_from started String.[] = false
domain_from started (String.◌∷◌ ch s) =
    (started && ((code ch == 46) && top_level s)) || (is_domain (code ch) && domain_from true s)

abbrev address_from : Bool → String → Bool
address_from started String.[] = false
address_from started (String.◌∷◌ ch s) =
    if code ch == 64
    then started && domain_from false s
    else is_local (code ch) && address_from true s

abbrev address_valid : String → Bool
address_valid s = leb (count s) 254 && address_from false s

-- `client == "civicloop-" + str(UUID(client.removeprefix("civicloop-")))`
abbrev after_prefix : String → String → Option String
after_prefix String.[] s = some s
after_prefix (String.◌∷◌ ch p) String.[] = none
after_prefix (String.◌∷◌ ch p) (String.◌∷◌ dh s) =
    if code ch == code dh then after_prefix p s else none

abbrev is_canonical : Option String → Bool
is_canonical none = false
is_canonical (some s) = canonical s

abbrev client_valid : String → Bool
client_valid s = is_canonical (after_prefix "civicloop-" s)

abbrev line_valid : String → Bool
line_valid s = leb (count s) 240 && not (any_char (λ n. ltb n 32) s)

-- A field that is a text, not blank and not longer than that
abbrev filled : ℕ → String → Bool
filled maximum s = not (str_eq (strip s) "") && leb (count s) maximum

abbrev text_with : (String → Bool) → Option Json → Bool
text_with p (some (str s)) = filled 12_000 s && p s
text_with p _ = false

abbrev type_valid : Option Json → Bool
type_valid none = false
type_valid (some v) = fits (number_of v)
  where
    fits : Option ℕ → Bool
    fits none = false
    fits (some n) = leb n 2_147_483_647

-- The HTML is that of the plain text.
abbrev html_valid : ℕ → Option Json → Option Json → Bool
html_valid version (some (str html)) (some (str body)) =
    filled 30_000 html && str_eq html (append (plain_html body) (footer version))
html_valid version _ _ = false

unfoldable pub template_valid : ℕ → Fields → Bool
template_valid version fs =
    type_valid (get "messageTypeId" fs)
    && (text_with client_valid (get "clientTemplateId" fs)
        && (text_with address_valid (get "fromEmail" fs)
            && (text_with address_valid (get "replyToEmail" fs)
                && (text_with line_valid (get "fromName" fs)
                    && (text_with (λ s. line_valid s && not (has_mark s)) (get "subject" fs)
                        && (text_with line_valid (get "name" fs)
                            && (text_with (λ s. not (has_mark s)) (get "plainText" fs)
                                && html_valid version (get "html" fs) (get "plainText" fs))))))))

abbrev pub template_fields : Json → Result Error Fields
template_fields (obj fs) = ok fs
template_fields _ = err invalid_request

unfoldable pub validate_template_payload : Json → Result Error Json
validate_template_payload payload = do
  version ← payload_version payload
  fs ← template_fields payload
  refuse (not (template_valid version fs)) invalid_request
  refuse (ltb 65_536 (byte_length (render (default_style true) payload))) invalid_request
  ok payload

-- `{...}.get(intent.operation_kind)`
abbrev pub message_of : String → Option String
message_of operation_kind =
    if str_eq operation_kind "create_iterable_email_draft"
    then some "invitation"
    else if str_eq operation_kind "create_iterable_reminder_draft"
    then some "reminder"
    else none

abbrev pub sender_exact : Json → Result Error Fields
sender_exact (obj fs) = if not_exact sender_fields fs then err invalid_request else ok fs
sender_exact _ = err invalid_request

-- A body that is no text has no `replace`.
abbrev pub body_text : Json → Result Error String
body_text (str s) = ok s
body_text _ = err attribute_error

abbrev cache_field : ℕ → Fields
cache_field version = if version == 2 then field "cacheDataFeed" (flag false) end else end

module _ (l : Library) where
  abbrev pub authored :
      Intent → String → ℕ → Json → Json → Json → Json → Json → Json → String → Json
  authored intent kind version from_email from_name reply_to message_type subject body text = obj (
      field "clientTemplateId" (str (append "civicloop-" (l.id_text intent.id))) (
        field "name" (str (concat ("CivicLoop " ∷ kind ∷ " " ∷ l.id_text intent.id ∷ []))) (
          field "fromEmail" from_email (
            field "fromName" from_name (
              field "replyToEmail" reply_to (
                field "messageTypeId" message_type (
                  field "subject" subject (
                    field "plainText" body (
                      field "html" (str (append (plain_html text) (footer version)))
                        (cache_field version))))))))))

  unfoldable pub author_payload : Intent → Json → ℕ → Result Error Json
  author_payload intent sender version = do
    refuse (not ((version == 1) || (version == 2))) invalid_request
    fs ← sender_exact sender
    kind ← demand (message_of intent.operation_kind) invalid_request
    content ← item_of intent.proposal.content kind
    from_email ← demand (get "fromEmail" fs) key_error
    from_name ← demand (get "fromName" fs) key_error
    reply_to ← demand (get "replyToEmail" fs) key_error
    message_type ← demand (get "messageTypeId" fs) key_error
    subject ← item_of content "subject"
    body ← item_of content "body"
    text ← body_text body
    validate_template_payload
        (authored intent kind version from_email from_name reply_to message_type subject body text)

  unfoldable pub template_digest : Json → Json → Result Error String
  template_digest region payload = do
    place ← region_of region
    valid ← validate_template_payload payload
    ok (l.sha256 (render canonical_style (obj (field "region" place (field "payload" valid end)))))

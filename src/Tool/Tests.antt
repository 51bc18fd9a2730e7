-- ===== src/Tool/Tests.antt =====
-- Calls of a tool on concrete arguments.
use civic_loop.Prelude.Int.{pos}
use civic_loop.Prelude.Result.{ok, err}
use civic_loop.Prelude.{some, ◌≡◌, refl, String, true, ◌&&◌, leb, if◌then◌else◌, ℕ, suc, zero}
use civic_loop.Json.{Json, Fields, null, num, str, arr, obj, nil, item, end, field, dumps}
use civic_loop.Tool.{
  Properties, bounded_json, encodable, invalid, walk, validate, validate_tool_arguments, extras,
  with_common, same_keys, matches, canonical,
}
use civic_loop.Tool.Limits.{within, bounded_json-within}
use civic_loop.Tool.Accepted.{Common, validate_tool_arguments-Common}
use civic_loop.Launch.Text.{decimal}
use Prim.Native.String.{count}

abbrev uuid : String
uuid = "1b4e28ba-2fa1-41d2-883f-0016d3cca427"

abbrev fields : Fields
fields = field "workflow_id" (str uuid) (
    field "revision_id" (num (pos 3)) (
      field "actor_id" (str "operator-1") (
        field "correlation_id" (str uuid) (
          field "request_id" (str uuid)
            (field "idempotency_key" (str "key-000000000000001") end)))))

accepted : validate_tool_arguments (str "get_event_revision") (obj fields) ≡ ok (dumps (obj fields))
unfolding validate_tool_arguments bounded_json walk encodable validate extras matches canonical
    dumps decimal
accepted = refl

unknown_tool : validate_tool_arguments (str "reset") (obj fields) ≡ err invalid
unfolding validate_tool_arguments bounded_json walk encodable validate extras dumps decimal
unknown_tool = refl

-- nine levels of lists
abbrev nested : ℕ → Json
nested zero = null
nested (suc n) = arr (item (nested n) nil)

too_deep : bounded_json (nested 9) ≡ err invalid
unfolding bounded_json walk
too_deep = refl

encoded :
    bounded_json (obj (field "b" (num (pos 12)) (field "a" (str "x\"y") end)))
    ≡ ok "{\"a\":\"x\\\"y\",\"b\":12}"
unfolding bounded_json walk encodable dumps decimal
encoded = refl

bounded_json-within_example : bounded_json (obj fields) ≡ (
    if within (obj fields) && (encodable (obj fields) && leb (count (dumps (obj fields))) 65_536)
    then ok (dumps (obj fields))
    else err invalid)
bounded_json-within_example = bounded_json-within (obj fields)

validate_tool_arguments-Common_example :
    (tool : String) × (extra : Properties) × (fs : Fields) × (str "get_event_revision" ≡ str tool)
    × (extras tool ≡ some extra)
    × (obj fields ≡ obj fs)
    × (bounded_json (obj fields) ≡ ok (dumps (obj fields)))
    × (same_keys fs (with_common extra) ≡ true)
    × Common fs
validate_tool_arguments-Common_example =
    validate_tool_arguments-Common (str "get_event_revision") (obj fields) (dumps (obj fields))
      accepted

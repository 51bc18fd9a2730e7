-- ===== src/Tool.antt =====
-- backend/agents/tool_schemas.py: the input contracts of the tools, and their check. An object's
-- keys are texts, so that `type(key) is str` holds; a text has no lone surrogates. The pattern of
-- a schema is one of the three in use, each by its matcher for `re.fullmatch`.
pub mod Limits
pub mod Accepted
mod Tests
use civic_loop.Prelude.Int.{ℤ, pos, negsuc, exceeds}
use civic_loop.Prelude.Result.{Result, ok, err, ◌>>=◌, ◌>>◌, refuse, demand}
use civic_loop.Prelude.{
  [], ◌∷◌, ℕ, suc, ◌+◌, String, Bool, true, false, not, ◌&&◌, ◌||◌, Option, none, some, leb, ltb,
  ◌==◌, str_eq, is_some, if◌then◌else◌,
}
use civic_loop.Json.{
  Json, Items, Fields, null, flag, num, float, str, arr, obj, nil, item, end, field, size, width,
  get, dumps, integer,
}
use Prim.Native.Char.{Char, code}
use Prim.Native.String.{count}

abbrev pub max_payload_bytes : ℕ
max_payload_bytes = 65_536

abbrev pub max_depth : ℕ
max_depth = 8

-- `InvalidToolArguments`
pub data Invalid : Type 0 where
  invalid : Invalid

-- `len(key) > 128` for a key
abbrev pub long_key : Fields → Bool
long_key end = false
long_key (field k v fs) = ltb 128 (count k) || long_key fs

abbrev pub too_much : ℕ → ℕ → Bool
too_much depth nodes = ltb max_depth depth || ltb 2_048 nodes

-- `walk`, with the count of nodes before it, which it answers counted on
unfoldable mutual
  pub walk : Json → ℕ → ℕ → Result Invalid ℕ
  walk (obj fs) depth nodes = do
    refuse (too_much depth (suc nodes)) invalid
    refuse (ltb 100 (width fs) || long_key fs) invalid
    walk_fields fs (suc depth) (suc nodes)
  walk (arr xs) depth nodes = do
    refuse (too_much depth (suc nodes)) invalid
    refuse (ltb 100 (size xs)) invalid
    walk_items xs (suc depth) (suc nodes)
  walk (str s) depth nodes = do
    refuse (too_much depth (suc nodes)) invalid
    refuse (ltb max_payload_bytes (count s)) invalid
    ok (suc nodes)
  walk null depth nodes = refuse (too_much depth (suc nodes)) invalid >> ok (suc nodes)
  walk (flag b) depth nodes = refuse (too_much depth (suc nodes)) invalid >> ok (suc nodes)
  walk (num n) depth nodes = refuse (too_much depth (suc nodes)) invalid >> ok (suc nodes)
  walk (float s) depth nodes = refuse (too_much depth (suc nodes)) invalid >> ok (suc nodes)

  pub walk_items : Items → ℕ → ℕ → Result Invalid ℕ
  walk_items nil depth nodes = ok nodes
  walk_items (item v xs) depth nodes = walk v depth nodes >>= λ n. walk_items xs depth n

  pub walk_fields : Fields → ℕ → ℕ → Result Invalid ℕ
  walk_fields end depth nodes = ok nodes
  walk_fields (field k v fs) depth nodes = walk v depth nodes >>= λ n. walk_fields fs depth n

-- What `json.dumps` refuses: NaN and the infinities, and a number of more than 4,300 digits.
abbrev pub is_finite : String → Bool
is_finite s = not (str_eq s "nan" || (str_eq s "inf" || str_eq s "-inf"))

abbrev pub printable : ℤ → Bool
printable (pos n) = leb (count (integer (pos n))) 4_300
printable (negsuc n) = leb (count (integer (negsuc n))) 4_301

unfoldable mutual
  pub encodable : Json → Bool
  encodable (num n) = printable n
  encodable (float s) = is_finite s
  encodable (arr xs) = encodable_items xs
  encodable (obj fs) = encodable_fields fs
  encodable null = true
  encodable (flag b) = true
  encodable (str s) = true

  pub encodable_items : Items → Bool
  encodable_items nil = true
  encodable_items (item v xs) = encodable v && encodable_items xs

  pub encodable_fields : Fields → Bool
  encodable_fields end = true
  encodable_fields (field k v fs) = encodable v && encodable_fields fs

-- The encoded text is ASCII: its bytes are its characters.
unfoldable pub bounded_json : Json → Result Invalid String
bounded_json value = do
  _ ← walk value 0 0
  refuse (not (encodable value)) invalid
  refuse (ltb max_payload_bytes (count (dumps value))) invalid
  ok (dumps value)

pub data Pattern : Type 0 where
  name_pattern key_pattern field_pattern : Pattern

-- The schemas: `obj`, an array with its items, `string`, and an integer with its minimum.
mutual
  pub data Schema : Type 0 where
    object : Properties → Schema
    array : ℕ → ℕ → Schema → Schema
    text : ℕ → ℕ → Option Pattern → Bool → Schema
    number : ℕ → Schema

  pub data Properties : Type 0 where
    last : Properties
    property : String → Schema → Properties → Properties

-- `string(maximum)`
abbrev pub string : ℕ → Schema
string maximum = text 1 maximum none false

abbrev pub uuid_schema : Schema
uuid_schema = text 1 36 none true

-- `{**COMMON, **extra}`
abbrev pub with_common : Properties → Properties
with_common extra = property "workflow_id" uuid_schema (
    property "revision_id" (number 1) (
      property "actor_id" (text 1 50 (some name_pattern) false) (
        property "correlation_id" uuid_schema (
          property "request_id" uuid_schema
            (property "idempotency_key" (text 1 128 (some key_pattern) false) extra)))))

abbrev pub email : Schema
email = object (property "subject" (string 240) (property "body" (string 12_000) last))

abbrev pub proposal : Schema
proposal = object (
    property "event_copy" (string 12_000) (
      property "invitation" email (
        property "reminder" email
          (property "social" (object (property "body" (string 4_000) last)) last))))

abbrev pub questions : Schema
questions = array 1 12 (
    object (
      property "field" (text 1 64 (some field_pattern) false)
        (property "question" (string 500) last)))

-- `EXTRAS.get(name)`
unfoldable pub extras : String → Option Properties
extras name =
    if str_eq name "get_event_revision"
    then some last
    else if str_eq name "get_policy_context"
    then some last
    else if str_eq name "request_clarification"
    then some (property "questions" questions last)
    else if str_eq name "propose_campaign_drafts"
    then some (property "proposal" proposal last)
    else if str_eq name "validate_proposal"
    then some (property "proposal_id" uuid_schema last)
    else if str_eq name "request_eventbrite_draft"
    then some (property "proposal_id" uuid_schema last)
    else if str_eq name "request_iterable_drafts"
    then some (property "proposal_id" uuid_schema last)
    else if str_eq name "get_operation_status"
    then some (property "operation_id" uuid_schema last)
    else none

abbrev between : ℕ → ℕ → ℕ → Bool
between lo hi n = leb lo n && leb n hi

abbrev is_lower : ℕ → Bool
is_lower n = between 97 122 n

abbrev is_alnum : ℕ → Bool
is_alnum n = is_lower n || (between 65 90 n || between 48 57 n)

abbrev every_char : (ℕ → Bool) → String → Bool
every_char p String.[] = true
every_char p (String.◌∷◌ c s) = p (code c) && every_char p s

-- `re.fullmatch(pattern, value)`
unfoldable pub matches : Pattern → String → Bool
matches name_pattern s =
    leb 1 (count s) && every_char (λ n. is_alnum n || ((n == 95) || (n == 45))) s
matches field_pattern s = leb 1 (count s) && every_char (λ n. is_lower n || (n == 95)) s
matches key_pattern String.[] = false
matches key_pattern (String.◌∷◌ c s) =
    is_alnum (code c)
    && (between 15 127 (count s)
        && every_char (λ n. is_alnum n || ((n == 46) || ((n == 95) || ((n == 58) || (n == 45))))) s)

abbrev matches_some : Option Pattern → String → Bool
matches_some none s = true
matches_some (some p) s = matches p s

-- A text from its position on is a UUID as `str(UUID(value))` writes it.
abbrev canonical_from : ℕ → String → Bool
canonical_from i String.[] = i == 36
canonical_from i (String.◌∷◌ c s) =
    (if (i == 8) || ((i == 13) || ((i == 18) || (i == 23)))
      then code c == 45
      else between 97 102 (code c) || between 48 57 (code c))
    && canonical_from (suc i) s

unfoldable pub canonical : String → Bool
canonical s = canonical_from 0 s

abbrev pub has_property : String → Properties → Bool
has_property k last = false
has_property k (property j s ps) = str_eq k j || has_property k ps

abbrev pub fields_within : Fields → Properties → Bool
fields_within end ps = true
fields_within (field k v fs) ps = has_property k ps && fields_within fs ps

abbrev pub has_properties : Properties → Fields → Bool
has_properties last fs = true
has_properties (property k s ps) fs = is_some (get k fs) && has_properties ps fs

-- `set(value) == set(schema["properties"])`
abbrev pub same_keys : Fields → Properties → Bool
same_keys fs ps = fields_within fs ps && has_properties ps fs

abbrev pub each : (Json → Result Invalid (Unit {0})) → Items → Result Invalid (Unit {0})
each f nil = ok tt
each f (item v xs) = f v >> each f xs

-- `value < schema["minimum"]`
abbrev pub below : ℤ → ℕ → Bool
below (pos n) m = ltb n m
below (negsuc n) m = true

unfoldable mutual
  pub validate : Json → Schema → Result Invalid (Unit {0})
  validate (obj fs) (object ps) = do
    refuse (not (same_keys fs ps)) invalid
    validate_properties fs ps
  validate (arr xs) (array lo hi s) = do
    refuse (not (leb lo (size xs) && leb (size xs) hi)) invalid
    each (λ child. validate child s) xs
  validate (str v) (text lo hi pattern uuid) = do
    refuse (not (leb lo (count v) && leb (count v) hi)) invalid
    refuse (not (matches_some pattern v)) invalid
    refuse (uuid && not (canonical v)) invalid
    ok tt
  validate (num n) (number minimum) =
      refuse (below n minimum || exceeds n 9_223_372_036_854_775_807) invalid >> ok tt
  validate _ _ = err invalid

  pub validate_properties : Fields → Properties → Result Invalid (Unit {0})
  validate_properties fs last = ok tt
  validate_properties fs (property k s ps) = do
    child ← demand (get k fs) invalid
    validate child s
    validate_properties fs ps

unfoldable pub validate_tool_arguments : Json → Json → Result Invalid String
validate_tool_arguments (str tool_name) arguments = do
  encoded ← bounded_json arguments
  extra ← demand (extras tool_name) invalid
  validate arguments (object (with_common extra))
  ok encoded
validate_tool_arguments _ arguments = bounded_json arguments >>= λ _. err invalid

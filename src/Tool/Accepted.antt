-- ===== src/Tool/Accepted.antt =====
-- What `validate_tool_arguments` (backend/agents/tool_schemas.py) has established of a call.
use civic_loop.Prelude.Result.{Result, ok, err, ◌>>=◌, of_bind, of_refuse, of_demand, of_ok}
use civic_loop.Prelude.Int.{pos, negsuc}
use civic_loop.Prelude.{
  ℕ, ◌≤◌, ◌≡◌, String, Bool, true, false, not, none, some, arith, refl, ◌∙◌, ap,
}
use civic_loop.Json.{Json, Fields, null, flag, num, float, str, arr, obj, get}
use civic_loop.Tool.{
  Invalid, invalid, bounded_json, validate, validate_properties, validate_tool_arguments, extras,
  with_common, same_keys, matches, name_pattern, key_pattern, canonical, Properties, property,
  Schema, object, text, number, Pattern,
}
use Prim.Native.String.{count}

-- `value[key]` is a text within the bounds that satisfies a test.
abbrev pub Text : Fields → String → ℕ → ℕ → (String → Bool) → Type 0
Text fs k lo hi p =
    (s : String) × (get k fs ≡ some (str s)) × (lo ≤ count s) × (count s ≤ hi) × (p s ≡ true)

abbrev pub Common : Fields → Type 0
Common fs =
    Text fs "workflow_id" 1 36 canonical
    × ((n : ℕ) × (get "revision_id" fs ≡ some (num (pos n)))
        × (1 ≤ n)
        × (n ≤ 9_223_372_036_854_775_807))
    × Text fs "actor_id" 1 50 (matches name_pattern)
    × Text fs "correlation_id" 1 36 canonical
    × Text fs "request_id" 1 36 canonical
    × Text fs "idempotency_key" 1 128 (matches key_pattern)

of_uuid :
    (v : Json)
    → validate v (text 1 36 none true) ≡ ok tt
    → (s : String) × (v ≡ str s) × (1 ≤ count s) × (count s ≤ 36) × (canonical s ≡ true)
unfolding validate
of_uuid (str s) h = (s, refl, ground arith, ground arith, ground arith)
of_uuid null h = ground arith
of_uuid (flag b) h = ground arith
of_uuid (num n) h = ground arith
of_uuid (float s) h = ground arith
of_uuid (arr xs) h = ground arith
of_uuid (obj fs) h = ground arith

of_pattern :
    (v : Json) (hi : ℕ) (p : Pattern)
    → validate v (text 1 hi (some p) false) ≡ ok tt
    → (s : String) × (v ≡ str s) × (1 ≤ count s) × (count s ≤ hi) × (matches p s ≡ true)
unfolding validate
of_pattern (str s) hi p h = (s, refl, ground arith, ground arith, ground arith)
of_pattern null hi p h = ground arith
of_pattern (flag b) hi p h = ground arith
of_pattern (num n) hi p h = ground arith
of_pattern (float s) hi p h = ground arith
of_pattern (arr xs) hi p h = ground arith
of_pattern (obj fs) hi p h = ground arith

of_number :
    (v : Json)
    → validate v (number 1) ≡ ok tt
    → (n : ℕ) × (v ≡ num (pos n)) × (1 ≤ n) × (n ≤ 9_223_372_036_854_775_807)
unfolding validate
of_number (num (pos n)) h = (n, refl, ground arith, ground arith)
of_number (num (negsuc n)) h = ground arith
of_number (str s) h = ground arith
of_number null h = ground arith
of_number (flag b) h = ground arith
of_number (float s) h = ground arith
of_number (arr xs) h = ground arith
of_number (obj fs) h = ground arith

of_not : (b : Bool) → not b ≡ false → b ≡ true
of_not true h = refl
of_not false h = ground arith

of_object :
    (v : Json) (ps : Properties)
    → validate v (object ps) ≡ ok tt
    → (fs : Fields) × (v ≡ obj fs) × (same_keys fs ps ≡ true) × (validate_properties fs ps ≡ ok tt)
unfolding validate
of_object (obj fs) ps h =
    let (keys, rest) = of_refuse (not (same_keys fs ps)) invalid h in
    (fs, refl, of_not (same_keys fs ps) keys, rest)
of_object (num n) ps h = ground arith
of_object (str s) ps h = ground arith
of_object null ps h = ground arith
of_object (flag b) ps h = ground arith
of_object (float s) ps h = ground arith
of_object (arr xs) ps h = ground arith

of_property :
    (fs : Fields) (k : String) (s : Schema) (ps : Properties)
    → validate_properties fs (property k s ps) ≡ ok tt
    → (child : Json) × (get k fs ≡ some child)
      × (validate child s ≡ ok tt)
      × (validate_properties fs ps ≡ ok tt)
unfolding validate
of_property fs k s ps h =
    let (child, found, rest) = of_demand (get k fs) invalid h in
    let (_, valid, others) = of_bind (validate child s) rest in (child, found, valid, others)

of_Text :
    (fs : Fields) (k : String) (hi : ℕ) (p : String → Bool) (child : Json)
    → get k fs ≡ some child
    → (s : String) × (child ≡ str s) × (1 ≤ count s) × (count s ≤ hi) × (p s ≡ true)
    → Text fs k 1 hi p
of_Text fs k hi p child found (s, e, lo, high, m) = (s, found ∙ ap some e, lo, high, m)

of_Common :
    (fs : Fields) (extra : Properties)
    → validate_properties fs (with_common extra) ≡ ok tt
    → Common fs
of_Common fs extra h =
    let (workflow, w, vw, h1) = of_property fs _ _ _ h in
    let (revision, r, vr, h2) = of_property fs _ _ _ h1 in
    let (actor, a, va, h3) = of_property fs _ _ _ h2 in
    let (correlation, c, vc, h4) = of_property fs _ _ _ h3 in
    let (request, q, vq, h5) = of_property fs _ _ _ h4 in
    let (key, k, vk, h6) = of_property fs _ _ _ h5 in
    let (n, e, lo, hi) = of_number revision vr in
    (
      of_Text fs _ 36 canonical workflow w (of_uuid workflow vw),
      (n, r ∙ ap some e, lo, hi),
      of_Text fs _ 50 (matches name_pattern) actor a (of_pattern actor 50 name_pattern va),
      of_Text fs _ 36 canonical correlation c (of_uuid correlation vc),
      of_Text fs _ 36 canonical request q (of_uuid request vq),
      of_Text fs _ 128 (matches key_pattern) key k (of_pattern key 128 key_pattern vk),
    )

not_named {ℓ} :
    {A : Type ℓ} (arguments : Json) {encoded : String}
    → ◌≡◌ {A = Result Invalid String} (bounded_json arguments >>= λ _. err invalid) (ok encoded)
    → A
not_named arguments h = let (t, _, e) = of_bind (bounded_json arguments) h in ground (arith, e)

-- Arguments that were accepted are bounded JSON and those of a known tool: an object with exactly
-- the keys that the tool's contract has, whose workflow, correlation and request are canonical
-- UUIDs, whose revision is an integer from 1 to 2 ^ 63 - 1, and whose actor and idempotency key
-- match their patterns within their lengths; and the answer is their encoding.
pub validate_tool_arguments-Common :
    (name arguments : Json) (encoded : String)
    → validate_tool_arguments name arguments ≡ ok encoded
    → (tool : String) × (extra : Properties) × (fs : Fields) × (name ≡ str tool)
      × (extras tool ≡ some extra)
      × (arguments ≡ obj fs)
      × (bounded_json arguments ≡ ok encoded)
      × (same_keys fs (with_common extra) ≡ true)
      × Common fs
unfolding validate_tool_arguments
validate_tool_arguments-Common (str tool) arguments encoded h =
    let (json, bounded, h1) = of_bind (bounded_json arguments) h in
    let (extra, known, h2) = of_demand (extras tool) invalid h1 in
    let (_, valid, h3) = of_bind (validate arguments (object (with_common extra))) h2 in
    let (fs, e, keys, properties) = of_object arguments (with_common extra) valid in
    (
      tool,
      extra,
      fs,
      refl,
      known,
      e,
      bounded ∙ ap ok (of_ok h3),
      keys,
      of_Common fs extra properties,
    )
validate_tool_arguments-Common null arguments encoded h = not_named arguments h
validate_tool_arguments-Common (flag b) arguments encoded h = not_named arguments h
validate_tool_arguments-Common (num n) arguments encoded h = not_named arguments h
validate_tool_arguments-Common (float s) arguments encoded h = not_named arguments h
validate_tool_arguments-Common (arr xs) arguments encoded h = not_named arguments h
validate_tool_arguments-Common (obj fs) arguments encoded h = not_named arguments h

-- ===== src/Tool/Limits.antt =====
-- The limits of `bounded_json` (backend/agents/tool_schemas.py) as one description of a value.
use civic_loop.Prelude.Result.{Result, ok, err}
use civic_loop.Prelude.{ℕ, suc, ◌+◌, ◌≤◌, ◌≡◌, Bool, true, not, ◌&&◌, leb, arith, if◌then◌else◌}
use civic_loop.Json.{
  Json, Items, Fields, null, flag, num, float, str, arr, obj, nil, item, end, field, size, width,
  dumps,
}
use civic_loop.Tool.{
  Invalid, invalid, walk, walk_items, walk_fields, bounded_json, long_key, encodable,
}
use Prim.Native.String.{count}

abbrev larger : ℕ → ℕ → ℕ
larger a b = if leb a b then b else a

-- How deep a value is, how many values it is made of, and whether each of them is small.
unfoldable mutual
  pub height : Json → ℕ
  height (arr xs) = tallest_item xs
  height (obj fs) = tallest_field fs
  height null = 0
  height (flag b) = 0
  height (num n) = 0
  height (float s) = 0
  height (str s) = 0

  pub tallest_item : Items → ℕ
  tallest_item nil = 0
  tallest_item (item v xs) = larger (suc (height v)) (tallest_item xs)

  pub tallest_field : Fields → ℕ
  tallest_field end = 0
  tallest_field (field k v fs) = larger (suc (height v)) (tallest_field fs)

unfoldable mutual
  pub count_values : Json → ℕ
  count_values (arr xs) = suc (count_items xs)
  count_values (obj fs) = suc (count_fields fs)
  count_values null = 1
  count_values (flag b) = 1
  count_values (num n) = 1
  count_values (float s) = 1
  count_values (str s) = 1

  pub count_items : Items → ℕ
  count_items nil = 0
  count_items (item v xs) = count_values v + count_items xs

  pub count_fields : Fields → ℕ
  count_fields end = 0
  count_fields (field k v fs) = count_values v + count_fields fs

unfoldable mutual
  pub small : Json → Bool
  small (arr xs) = leb (size xs) 100 && small_items xs
  small (obj fs) = leb (width fs) 100 && (not (long_key fs) && small_fields fs)
  small (str s) = leb (count s) 65_536
  small null = true
  small (flag b) = true
  small (num n) = true
  small (float s) = true

  pub small_items : Items → Bool
  small_items nil = true
  small_items (item v xs) = small v && small_items xs

  pub small_fields : Fields → Bool
  small_fields end = true
  small_fields (field k v fs) = small v && small_fields fs

-- What a walk from a depth and a count answers, for a height, a count and a test.
abbrev answer : ℕ → ℕ → ℕ → ℕ → Bool → Result Invalid ℕ
answer depth nodes h n good =
    if leb (depth + h) 8 && (leb (nodes + n) 2_048 && good) then ok (nodes + n) else err invalid

mutual
  unfolding walk height count_values small

  pub walk-answer :
      (v : Json) (depth nodes : ℕ)
      → walk v depth nodes ≡ answer depth nodes (height v) (count_values v) (small v)
  walk-answer (obj fs) depth nodes = ground (
    arith,
    λ (d : depth ≤ 8) (n : suc nodes ≤ 2_048). walk_fields-answer fs depth (suc nodes) d n,
  )
  walk-answer (arr xs) depth nodes =
      ground (
        arith,
        λ (d : depth ≤ 8) (n : suc nodes ≤ 2_048). walk_items-answer xs depth (suc nodes) d n,
      )
  walk-answer (str s) depth nodes = ground arith
  walk-answer null depth nodes = ground arith
  walk-answer (flag b) depth nodes = ground arith
  walk-answer (num n) depth nodes = ground arith
  walk-answer (float s) depth nodes = ground arith

  walk_items-answer :
      (xs : Items) (depth nodes : ℕ)
      → depth ≤ 8
      → nodes ≤ 2_048
      → walk_items xs (suc depth) nodes
        ≡ answer depth nodes (tallest_item xs) (count_items xs) (small_items xs)
  walk_items-answer nil depth nodes d n = ground arith
  walk_items-answer (item v xs) depth nodes d n = rw (walk-answer v (suc depth) nodes) (
      ground (
        arith,
        λ (m : nodes + count_values v ≤ 2_048).
            walk_items-answer xs depth (nodes + count_values v) d m,
      ))

  walk_fields-answer :
      (fs : Fields) (depth nodes : ℕ)
      → depth ≤ 8
      → nodes ≤ 2_048
      → walk_fields fs (suc depth) nodes
        ≡ answer depth nodes (tallest_field fs) (count_fields fs) (small_fields fs)
  walk_fields-answer end depth nodes d n = ground arith
  walk_fields-answer (field k v fs) depth nodes d n = rw (walk-answer v (suc depth) nodes) (
      ground (
        arith,
        λ (m : nodes + count_values v ≤ 2_048).
            walk_fields-answer fs depth (nodes + count_values v) d m,
      ))

-- The limits together: at most eight levels below the top, 2,048 values, and every one small.
abbrev pub within : Json → Bool
within v = leb (height v) 8 && (leb (count_values v) 2_048 && small v)

-- `bounded_json` accepts exactly the values that are at most eight levels deep, are made of at most
-- 2,048 values, have no list or object of more than 100 entries, no key of more than 128 and no
-- text of more than 65,536 characters, can be encoded, and encode to at most 65,536 bytes; and it
-- answers the encoded text.
pub bounded_json-within :
    (v : Json)
    → bounded_json v ≡ (
        if within v && (encodable v && leb (count (dumps v)) 65_536)
        then ok (dumps v)
        else err invalid)
unfolding bounded_json
bounded_json-within v = rw (walk-answer v 0 0) (ground arith)

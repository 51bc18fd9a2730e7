-- ===== src/Json/Render.antt =====
-- `json.dumps` with the other arguments in use: `ensure_ascii=False`, and the separators and order
-- that it has by default; and the length of a text in UTF-8.
use civic_loop.Prelude.{ℕ, ◌+◌, String, Bool, true, false, List, [], ◌∷◌, ltb, ◌==◌, if◌then◌else◌}
use civic_loop.Launch.Text.{concat}
use civic_loop.Json.{
  Json, Items, Fields, null, flag, num, float, str, arr, obj, nil, item, end, field, integer, hex,
  quoted, insert_key,
}
use Prim.Native.Char.{Char, code}
use Prim.Native.String.{◌++◌ as append}

pub record Style : Type 0 where
  pub ensure_ascii : Bool
  pub sort_keys : Bool
  pub item_separator : String
  pub key_separator : String

abbrev plain : ℕ → Char → String
plain n c =
    if n == 34
    then "\\\""
    else if n == 92
    then "\\\\"
    else if n == 10
    then "\\n"
    else if n == 13
    then "\\r"
    else if n == 9
    then "\\t"
    else if n == 12
    then "\\f"
    else if n == 8
    then "\\b"
    else if ltb n 32
    then hex n
    else String.◌∷◌ c String.[]

abbrev plain_text : String → String
plain_text String.[] = ""
plain_text (String.◌∷◌ c s) = append (plain (code c) c) (plain_text s)

abbrev quoted_in : Style → String → String
quoted_in y s = if y.ensure_ascii then quoted s else concat ("\"" ∷ plain_text s ∷ "\"" ∷ [])

abbrev joined : String → List String → String
joined separator [] = ""
joined separator (s ∷ []) = s
joined separator (s ∷ t ∷ rest) = concat (s ∷ separator ∷ joined separator (t ∷ rest) ∷ [])

abbrev members_in : Style → List (String × String) → List String
members_in y [] = []
members_in y ((k, e) ∷ rest) = concat (quoted_in y k ∷ y.key_separator ∷ e ∷ []) ∷ members_in y rest

unfoldable mutual
  pub render : Style → Json → String
  render y null = "null"
  render y (flag true) = "true"
  render y (flag false) = "false"
  render y (num n) = integer n
  render y (float s) = s
  render y (str s) = quoted_in y s
  render y (arr xs) = concat ("[" ∷ joined y.item_separator (render_items y xs) ∷ "]" ∷ [])
  render y (obj fs) =
      concat ("{" ∷ joined y.item_separator (members_in y (render_fields y fs)) ∷ "}" ∷ [])

  pub render_items : Style → Items → List String
  render_items y nil = []
  render_items y (item v xs) = render y v ∷ render_items y xs

  pub render_fields : Style → Fields → List (String × String)
  render_fields y end = []
  render_fields y (field k v fs) =
      let rest = render_fields y fs in
      let e = render y v in if y.sort_keys then insert_key k e rest else (k, e) ∷ rest

-- `json.dumps(value, sort_keys=True, separators=(",", ":"), ensure_ascii=False)`
abbrev pub canonical_style : Style
canonical_style = record {
  ensure_ascii = false;
  sort_keys = true;
  item_separator = ",";
  key_separator = ":";
}

-- `json.dumps(value, ensure_ascii=...)`
abbrev pub default_style : Bool → Style
default_style ascii = record {
  ensure_ascii = ascii;
  sort_keys = false;
  item_separator = ", ";
  key_separator = ": ";
}

abbrev char_bytes : ℕ → ℕ
char_bytes n = if ltb n 128 then 1 else if ltb n 2_048 then 2 else if ltb n 65_536 then 3 else 4

-- `len(text.encode())`
abbrev pub byte_length : String → ℕ
byte_length String.[] = 0
byte_length (String.◌∷◌ c s) = char_bytes (code c) + byte_length s

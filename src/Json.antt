-- ===== src/Json.antt =====
-- JSON values as Python holds them, and `json.dumps(value, sort_keys=True, separators=(",", ":"))`.
-- A float is held by the text that Python prints for it. The keys of an object differ.
pub mod Render
use civic_loop.Prelude.Int.{ℤ, pos, negsuc}
use civic_loop.Prelude.{
  ◌++◌, ℕ, suc, ◌+◌, ◌-◌, ◌/◌, ◌%◌, String, Bool, true, false, ◌&&◌, Option, none, some, List, [],
  ◌∷◌, leb, ltb, ◌==◌, str_eq, if◌then◌else◌,
}
use Prim.Native.Nat.{Ordering}
use Prim.Native.String.{◌++◌ as append, compare}
use Prim.Native.Char.{Char, code}
use civic_loop.Launch.Text.{concat, decimal}

mutual
  pub data Json : Type 0 where
    null : Json
    flag : Bool → Json
    num : ℤ → Json
    float : String → Json
    str : String → Json
    arr : Items → Json
    obj : Fields → Json

  pub data Items : Type 0 where
    nil : Items
    item : Json → Items → Items

  pub data Fields : Type 0 where
    end : Fields
    field : String → Json → Fields → Fields

abbrev pub size : Items → ℕ
size nil = 0
size (item v xs) = suc (size xs)

abbrev pub width : Fields → ℕ
width end = 0
width (field k v fs) = suc (width fs)

-- `d.get(key)`
abbrev pub get : String → Fields → Option Json
get key end = none
get key (field k v fs) = if str_eq k key then some v else get key fs

-- `{16:04x}` of a number below 2 ^ 16
abbrev hex_digit : ℕ → String
hex_digit n =
    if n == 10
    then "a"
    else if n == 11
    then "b"
    else if n == 12
    then "c"
    else if n == 13
    then "d"
    else if n == 14
    then "e"
    else if n == 15
    then "f"
    else decimal n

abbrev pub hex : ℕ → String
hex n = concat (
    "\\u"
    ∷ hex_digit (n / 4_096)
    ∷ hex_digit (n / 256 % 16)
    ∷ hex_digit (n / 16 % 16)
    ∷ hex_digit (n % 16)
    ∷ [])

-- One character in a text; a code above 2 ^ 16 is a surrogate pair.
abbrev pub escaped : ℕ → Char → String
escaped n c =
    if n == 34
    then "\\\""
    else if n == 92
    then "\\\\"
    else if n == 10
    then "\\n"
    else if n == 13
    then "\\r"
    else if n == 9
    then "\\t"
    else if n == 12
    then "\\f"
    else if n == 8
    then "\\b"
    else if leb 32 n && leb n 126
    then String.◌∷◌ c String.[]
    else if ltb n 65_536
    then hex n
    else append (hex (55_296 + (n - 65_536) / 1_024)) (hex (56_320 + (n - 65_536) % 1_024))

abbrev escape : String → String
escape String.[] = ""
escape (String.◌∷◌ c s) = append (escaped (code c) c) (escape s)

abbrev pub quoted : String → String
quoted s = concat ("\"" ∷ escape s ∷ "\"" ∷ [])

abbrev pub integer : ℤ → String
integer (pos n) = decimal n
integer (negsuc n) = append "-" (decimal (n + 1))

abbrev pub insert_key : String → String → List (String × String) → List (String × String)
insert_key k e [] = (k, e) ∷ []
insert_key k e ((j, d) ∷ rest) = elim (compare k j) [
  | Ordering.gt ↦ (j, d) ∷ insert_key k e rest
  | _ ↦ (k, e) ∷ (j, d) ∷ rest
]

abbrev pub comma : List String → String
comma [] = ""
comma (s ∷ []) = s
comma (s ∷ t ∷ rest) = concat (s ∷ "," ∷ comma (t ∷ rest) ∷ [])

abbrev members : List (String × String) → List String
members [] = []
members ((k, e) ∷ rest) = concat (quoted k ∷ ":" ∷ e ∷ []) ∷ members rest

unfoldable mutual
  pub dumps : Json → String
  dumps null = "null"
  dumps (flag true) = "true"
  dumps (flag false) = "false"
  dumps (num n) = integer n
  dumps (float s) = s
  dumps (str s) = quoted s
  dumps (arr xs) = concat ("[" ∷ comma (dumps_items xs) ∷ "]" ∷ [])
  dumps (obj fs) = concat ("{" ∷ comma (members (dumps_fields fs)) ∷ "}" ∷ [])

  pub dumps_items : Items → List String
  dumps_items nil = []
  dumps_items (item v xs) = dumps v ∷ dumps_items xs

  pub dumps_fields : Fields → List (String × String)
  dumps_fields end = []
  dumps_fields (field k v fs) = insert_key k (dumps v) (dumps_fields fs)

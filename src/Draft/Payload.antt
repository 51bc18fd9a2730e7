-- ===== src/Draft/Payload.antt =====
-- The payloads that the provider adapters accept (backend/integrations): what their checks share.
-- Their errors all have the category invalid_request. A payload that is loaded again from its own
-- encoding is the payload.
pub mod Eventbrite
pub mod Iterable
pub mod Template
pub mod Contract
pub mod Authored
mod Tests
use civic_loop.Prelude.Result.{Result, ok, err}
use civic_loop.Prelude.{
  ℕ, ◌+◌, ◌*◌, String, Bool, true, false, not, ◌&&◌, ◌||◌, Option, none, some, List, [], ◌∷◌, any,
  leb, ◌==◌, str_eq, if◌then◌else◌,
}
use civic_loop.Json.{Json, Fields, end, field}
use civic_loop.Draft.{Error, provider_error}
use Prim.Native.Char.{Char, code}
use Prim.Native.String.{count}

-- What the checks use of Python's library: SHA-256, the text of a UUID key, the time that a text in
-- the fixed format says (`re.fullmatch` and `datetime.strptime`), and the time zones.
pub record Library : Type 0 where
  pub sha256 : String → String
  pub id_text : ℕ → String
  pub moment : String → Option ℕ
  pub is_zone : String → Bool

abbrev pub invalid_request : Error
invalid_request = provider_error "invalid_request"

abbrev pub every_char : (ℕ → Bool) → String → Bool
every_char p String.[] = true
every_char p (String.◌∷◌ ch s) = p (code ch) && every_char p s

abbrev pub between : ℕ → ℕ → ℕ → Bool
between lo hi n = leb lo n && leb n hi

abbrev pub is_digit : ℕ → Bool
is_digit n = between 48 57 n

abbrev pub is_letter : ℕ → Bool
is_letter n = between 65 90 n || between 97 122 n

-- `set(value) <= keys`
abbrev pub keys_within : List String → Fields → Bool
keys_within keys end = true
keys_within keys (field k v fs) = any (str_eq k) keys && keys_within keys fs

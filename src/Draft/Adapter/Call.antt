-- ===== src/Draft/Adapter/Call.antt =====
-- Calls of an adapter: they may raise, and send requests, which are kept with the last one first.
use civic_loop.Prelude.Result.{Result, ok, err}
use civic_loop.Prelude.{ℕ, String, Bool, true, false, List, ◌∷◌}
use civic_loop.Json.{Fields}
use civic_loop.Draft.{Error, provider_error}
use civic_loop.Draft.Adapter.{category, Request, Wire, body_of}

abbrev pub Call : Type 0 → Type 0
Call A = List Request → Result Error A × List Request

abbrev pub then_call :
    {A B : Type 0} → (A → Call B) → Result Error A × List Request → Result Error B × List Request
then_call f (ok a, log) = f a log
then_call f (err e, log) = (err e, log)

infixl 10 ◌>>=◌ ◌>>◌
abbrev pub ◌>>=◌ : {A B : Type 0} → Call A → (A → Call B) → Call B
◌>>=◌ m f log = then_call f (m log)

abbrev pub ◌>>◌ : {B : Type 0} → Call (Unit {0}) → Call B → Call B
m >> k = m >>= λ _. k

abbrev pub return : {A : Type 0} → A → Call A
return a log = (ok a, log)

abbrev pub raise : {A : Type 0} → String → Call A
raise category log = (err (provider_error category), log)

abbrev pub lift : {A : Type 0} → Result Error A → Call A
lift r log = (r, log)

abbrev pub require : Bool → String → Call (Unit {0})
require true category = return tt
require false category = raise category

-- `try: m except ProviderError as exc: handler(exc.category) else: f`
abbrev pub or_else :
    {A B : Type 0}
    → (String → Call B)
    → (A → Call B)
    → Result Error A × List Request
    → Result Error B × List Request
or_else handler f (ok a, log) = f a log
or_else handler f (err (provider_error category), log) = handler category log
or_else handler f (err e, log) = (err e, log)

abbrev pub attempt : {A B : Type 0} → Call A → (String → Call B) → (A → Call B) → Call B
attempt m handler f log = or_else handler f (m log)

-- A request that is sent
unfoldable pub send : Wire → ℕ → Request → Call Fields
send wire limit r log = (body_of limit (wire log r), r ∷ log)

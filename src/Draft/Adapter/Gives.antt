-- ===== src/Draft/Adapter/Gives.antt =====
-- What a call of an adapter (backend/integrations/eventbrite_drafts.py) gives, if it does not raise.
use civic_loop.Prelude.Result.{Result, ok, err}
use civic_loop.Prelude.{◌≡◌, refl, subst, String, List}
use civic_loop.Draft.{
  Error, provider_error, permission_denied, does_not_exist, invalid_arguments, validation_error,
  value_error, key_error, type_error, attribute_error, integrity_error,
}
use civic_loop.Draft.Adapter.{Request}
use civic_loop.Draft.Adapter.Call.{Call, then_call, ◌>>=◌, or_else, attempt}

-- What holds of what a call returns, with the requests that were sent
abbrev pub Holds :
    {A : Type 0} → (A → List Request → Type 0) → Result Error A × List Request → Type 0
Holds P (ok x, log) = P x log
Holds P (err e, log) = Unit

abbrev pub Gives : {A : Type 0} → (A → List Request → Type 0) → Call A → Type 0
Gives P m = (log : List Request) → Holds P (m log)

module _ {A B : Type 0} (P : B → List Request → Type 0) where
  pub then_call-Holds :
      (f : A → Call B) (p : Result Error A × List Request)
      → ((x : A) (log : List Request) → p ≡ (ok x, log) → Holds P (f x log))
      → Holds P (then_call f p)
  then_call-Holds f (ok x, log) h = h x log refl
  then_call-Holds f (err e, log) h = tt

  pub or_else-Holds :
      (handler : String → Call B) (f : A → Call B) (p : Result Error A × List Request)
      → ((s : String) → Gives P (handler s))
      → ((x : A) (log : List Request) → p ≡ (ok x, log) → Holds P (f x log))
      → Holds P (or_else handler f p)
  or_else-Holds handler f (ok x, log) h k = k x log refl
  or_else-Holds handler f (err (provider_error s), log) h k = h s log
  or_else-Holds handler f (err permission_denied, log) h k = tt
  or_else-Holds handler f (err does_not_exist, log) h k = tt
  or_else-Holds handler f (err invalid_arguments, log) h k = tt
  or_else-Holds handler f (err validation_error, log) h k = tt
  or_else-Holds handler f (err value_error, log) h k = tt
  or_else-Holds handler f (err key_error, log) h k = tt
  or_else-Holds handler f (err type_error, log) h k = tt
  or_else-Holds handler f (err attribute_error, log) h k = tt
  or_else-Holds handler f (err integrity_error, log) h k = tt

  pub attempt-Gives :
      (m : Call A) (handler : String → Call B) (f : A → Call B)
      → ((s : String) → Gives P (handler s))
      → ((x : A) → Gives P (f x))
      → Gives P (attempt m handler f)
  attempt-Gives m handler f h k log = or_else-Holds handler f (m log) h (λ x log' e. k x log')

  pub >>=-Gives : (m : Call A) (f : A → Call B) → ((x : A) → Gives P (f x)) → Gives P (m >>= f)
  >>=-Gives m f h log = then_call-Holds f (m log) (λ x log' e. h x log')

pub Holds-map :
    {A : Type 0} {P : A → List Request → Type 0} (Q : A → List Request → Type 0)
    (p : Result Error A × List Request)
    → ((x : A) (log : List Request) → P x log → Q x log)
    → Holds P p
    → Holds Q p
Holds-map Q (ok x, log) f h = f x log h
Holds-map Q (err e, log) f h = tt

pub of_Holds :
    {A : Type 0} (P : A → List Request → Type 0) (p : Result Error A × List Request) {x : A}
    {log : List Request}
    → Holds P p
    → p ≡ (ok x, log)
    → P x log
of_Holds P p h e = subst (Holds P) e h

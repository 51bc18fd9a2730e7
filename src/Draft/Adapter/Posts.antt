-- ===== src/Draft/Adapter/Posts.antt =====
-- How many requests to write the calls of an adapter send (backend/integrations).
use civic_loop.Prelude.Result.{Result, ok, err}
use civic_loop.Prelude.{ℕ, ◌+◌, ◌≤◌, arith, String, Bool, true, false, List, [], ◌∷◌}
use civic_loop.Draft.{
  Error, provider_error, permission_denied, does_not_exist, invalid_arguments, validation_error,
  value_error, key_error, type_error, attribute_error, integrity_error,
}
use civic_loop.Draft.Adapter.{Method, http_get, http_post, Request, Wire}
use civic_loop.Draft.Adapter.Call.{
  Call, then_call, ◌>>=◌, ◌>>◌, return, raise, lift, require, or_else, attempt, send,
}

abbrev pub weight : Method → ℕ
weight http_get = 0
weight http_post = 1

-- The requests that may write
abbrev pub posts : List Request → ℕ
posts [] = 0
posts (r ∷ rs) = weight r.method + posts rs

-- The call sends at most so many.
abbrev pub Sends : {A : Type 0} → ℕ → Call A → Type 0
Sends n m = (log : List Request) → posts (m log).1 ≤ posts log + n

module _ {A B : Type 0} where
  then_call-posts :
      (b c : ℕ) (f : A → Call B) (p : Result Error A × List Request)
      → posts p.1 ≤ c
      → ((x : A) → Sends b (f x))
      → posts (then_call f p).1 ≤ c + b
  then_call-posts b c f (ok x, log) h k = omega (arith, k x log)
  then_call-posts b c f (err e, log) h k = omega arith

  pub Sends-bind :
      (a b : ℕ) (m : Call A) (f : A → Call B)
      → Sends a m
      → ((x : A) → Sends b (f x))
      → Sends (a + b) (m >>= f)
  Sends-bind a b m f h k log = omega (arith, then_call-posts b (posts log + a) f (m log) (h log) k)

  or_else-posts :
      (b c : ℕ) (handler : String → Call B) (f : A → Call B) (p : Result Error A × List Request)
      → posts p.1 ≤ c
      → ((s : String) → Sends b (handler s))
      → ((x : A) → Sends b (f x))
      → posts (or_else handler f p).1 ≤ c + b
  or_else-posts b c handler f (ok x, log) h k j = omega (arith, j x log)
  or_else-posts b c handler f (err (provider_error s), log) h k j = omega (arith, k s log)
  or_else-posts b c handler f (err permission_denied, log) h k j = omega arith
  or_else-posts b c handler f (err does_not_exist, log) h k j = omega arith
  or_else-posts b c handler f (err invalid_arguments, log) h k j = omega arith
  or_else-posts b c handler f (err validation_error, log) h k j = omega arith
  or_else-posts b c handler f (err value_error, log) h k j = omega arith
  or_else-posts b c handler f (err key_error, log) h k j = omega arith
  or_else-posts b c handler f (err type_error, log) h k j = omega arith
  or_else-posts b c handler f (err attribute_error, log) h k j = omega arith
  or_else-posts b c handler f (err integrity_error, log) h k j = omega arith

  pub Sends-attempt :
      (a b : ℕ) (m : Call A) (handler : String → Call B) (f : A → Call B)
      → Sends a m
      → ((s : String) → Sends b (handler s))
      → ((x : A) → Sends b (f x))
      → Sends (a + b) (attempt m handler f)
  Sends-attempt a b m handler f h k j log =
      omega (arith, or_else-posts b (posts log + a) handler f (m log) (h log) k j)

module _ {A : Type 0} where
  pub Sends-return : (x : A) → Sends 0 (return x)
  Sends-return x log = omega arith

  pub Sends-lift : (r : Result Error A) → Sends 0 (lift r)
  Sends-lift r log = omega arith

pub Sends-raise : (A : Type 0) (s : String) → Sends 0 (raise {A = A} s)
Sends-raise A s log = omega arith

pub Sends-require : (b : Bool) (s : String) → Sends 0 (require b s)
Sends-require true s log = omega arith
Sends-require false s log = omega arith

pub send-Sends :
    (wire : Wire) (limit : ℕ) (r : Request) → Sends (weight r.method) (send wire limit r)
unfolding send
send-Sends wire limit r log = omega arith

-- What follows a check, a value that is known, or a call that only reads
pub after_require :
    {A : Type 0} (n : ℕ) (b : Bool) (s : String) (k : Call A)
    → Sends n k
    → Sends n (require b s >> k)
after_require n true s k h log = h log
after_require n false s k h log = omega arith

module _ {A B : Type 0} where
  pub after_lift :
      (n : ℕ) (r : Result Error A) (f : A → Call B)
      → ((x : A) → Sends n (f x))
      → Sends n (lift r >>= f)
  after_lift n (ok x) f h log = h x log
  after_lift n (err e) f h log = omega arith

  pub after_read :
      (n : ℕ) (m : Call A) (f : A → Call B)
      → Sends 0 m
      → ((x : A) → Sends n (f x))
      → Sends n (m >>= f)
  after_read n m f h k log = omega (arith, Sends-bind 0 n m f h k log)

-- ===== src/Prelude/Result.antt =====
-- Code that may raise. A block under `transaction.atomic` that raises leaves the database as it
-- was, so an error carries no state.
use native.Mathlib.Omega.{arith}
use mathlib.Core.Path.{◌≡◌, refl, ap, subst}
use mathlib.Core.Bool.{Bool, true, false}
use mathlib.Core.Option.{Option, none, some}

pub data Result {ℓ κ} (E : Type ℓ) (A : Type κ) : Type (ℓ ⊔ κ) where
  ok : A → Result E A
  err : E → Result E A

infixl 10 ◌>>=◌ ◌>>◌
abbrev pub ◌>>=◌ {ℓ κ μ} :
    {E : Type ℓ} {A : Type κ} {B : Type μ} → Result E A → (A → Result E B) → Result E B
ok a >>= f = f a
err e >>= f = err e

abbrev pub ◌>>◌ {ℓ κ} : {E : Type ℓ} {B : Type κ} → Result E (Unit {0}) → Result E B → Result E B
m >> k = m >>= λ _. k

-- `if bad: raise e`
abbrev pub refuse {ℓ} : {E : Type ℓ} → Bool → E → Result E (Unit {0})
refuse true e = err e
refuse false e = ok tt

-- `x = ...; if x is None: raise e`
abbrev pub demand {ℓ κ} : {E : Type ℓ} {A : Type κ} → Option A → E → Result E A
demand none e = err e
demand (some a) e = ok a

-- The code returns, and what it returns satisfies the predicate.
abbrev pub Returns {ℓ κ} : {E : Type ℓ} {A : Type κ} → (A → Type 0) → Result E A → Type 0
Returns P (ok a) = P a
Returns P (err e) = ⊥

pub Returns-bind {ℓ κ μ} :
    {E : Type ℓ} {A : Type κ} {B : Type μ} (P : A → Type 0) (Q : B → Type 0) (m : Result E A)
    (f : A → Result E B)
    → Returns P m
    → ((a : A) → P a → Returns Q (f a))
    → Returns Q (m >>= f)
Returns-bind P Q (ok a) f h k = k a h
Returns-bind P Q (err e) f h k = elim h [ ]

pub Returns-map {ℓ κ} :
    {E : Type ℓ} {A : Type κ} (P Q : A → Type 0) (m : Result E A)
    → Returns P m
    → ((a : A) → P a → Q a)
    → Returns Q m
Returns-map P Q (ok a) h k = k a h
Returns-map P Q (err e) h k = elim h [ ]

-- If the code returns, the predicate holds of what it returns.
abbrev pub Ensures {ℓ κ} : {E : Type ℓ} {A : Type κ} → (A → Type 0) → Result E A → Type 0
Ensures P (ok a) = P a
Ensures P (err e) = Unit

pub Ensures-bind {ℓ κ μ} :
    {E : Type ℓ} {A : Type κ} {B : Type μ} (P : A → Type 0) (Q : B → Type 0) (m : Result E A)
    (f : A → Result E B)
    → Ensures P m
    → ((a : A) → P a → Ensures Q (f a))
    → Ensures Q (m >>= f)
Ensures-bind P Q (ok a) f h k = k a h
Ensures-bind P Q (err e) f h k = tt

-- What an equation with `ok` makes of the predicate.
pub Returns-ok {ℓ κ} :
    {E : Type ℓ} {A : Type κ} (P : A → Type 0) (m : Result E A) {a : A}
    → Returns P m
    → m ≡ ok a
    → P a
Returns-ok P m h e = subst (Returns P) e h

pub of_ok {ℓ κ} : {E : Type ℓ} {A : Type κ} {x y : A} → ◌≡◌ {A = Result E A} (ok x) (ok y) → x ≡ y
of_ok h = cc

abbrev pub is_ok {ℓ κ} : {E : Type ℓ} {A : Type κ} → Result E A → Bool
is_ok (ok _) = true
is_ok (err _) = false

pub is_ok_lem {ℓ κ} :
    {E : Type ℓ} {A : Type κ} (m : Result E A) → is_ok m ≡ true → (a : A) × (m ≡ ok a)
is_ok_lem (ok a) h = (a, refl)
is_ok_lem (err e) h = ground arith

-- A block that returns has run its first call, and goes on with its result.
pub of_bind {ℓ κ μ} :
    {E : Type ℓ} {A : Type κ} {B : Type μ} (m : Result E A) {f : A → Result E B} {b : B}
    → (m >>= f) ≡ ok b
    → (a : A) × (m ≡ ok a) × (f a ≡ ok b)
of_bind (ok a) h = (a, refl, h)
of_bind (err e) h = ground arith

pub of_refuse {ℓ κ} :
    {E : Type ℓ} {A : Type κ} (b : Bool) (e : E) {m : Result E A} {a : A}
    → (refuse b e >> m) ≡ ok a
    → (b ≡ false) × (m ≡ ok a)
of_refuse true e h = ground arith
of_refuse false e h = (refl, h)

pub of_demand {ℓ κ μ} :
    {E : Type ℓ} {A : Type κ} {B : Type μ} (o : Option A) (e : E) {f : A → Result E B} {b : B}
    → (demand o e >>= f) ≡ ok b
    → (a : A) × (o ≡ some a) × (f a ≡ ok b)
of_demand (some a) e h = (a, refl, h)
of_demand none e h = ground arith

-- The other way: a check that passes, a row that is there, and a call that returns are left out.
pub refuse_pass {ℓ κ} :
    {E : Type ℓ} {A : Type κ} (b : Bool) (e : E) (m : Result E A)
    → b ≡ false
    → (refuse b e >> m) ≡ m
refuse_pass b e m h = ap (λ x. refuse x e >> m) h

pub demand_pass {ℓ κ μ} :
    {E : Type ℓ} {A : Type κ} {B : Type μ} (o : Option A) (e : E) (f : A → Result E B) {a : A}
    → o ≡ some a
    → (demand o e >>= f) ≡ f a
demand_pass o e f h = ap (λ x. demand x e >>= f) h

pub bind_pass {ℓ κ μ} :
    {E : Type ℓ} {A : Type κ} {B : Type μ} (m : Result E A) (f : A → Result E B) {a : A}
    → m ≡ ok a
    → (m >>= f) ≡ f a
bind_pass m f h = ap (λ x. x >>= f) h

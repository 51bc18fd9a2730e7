-- ===== src/Prelude/Table/Rows.antt =====
-- Loops over rows that a query has read from a table, writing each of them back.
use mathlib.Core.Path.{◌≡◌, refl, ap, ◌∙◌}
use mathlib.Core.Logic.{inl, inr}
use mathlib.Core.Bool.{Bool, true, false}
use mathlib.Core.Option
use mathlib.Core.Option.{none, some}
use mathlib.Core.List.{List, [], ◌∷◌, map}
use Prim.Native.Nat.{ℕ}
use native.Mathlib.Omega.{arith}
use civic_loop.Prelude.Tests.{◌==◌, if◌then◌else◌, Bool-cases, ==_iff, ==_refl}
use civic_loop.Prelude.Lists.{any, All, keep}
use civic_loop.Prelude.Table.{find, save, Distinct, find-save}

module _ {ℓ} {A : Type ℓ} (key : A → ℕ) where
  -- Each row of the first list stands in the table as it is.
  abbrev pub Rows : List A → List A → Type ℓ
  Rows rs xs = All (λ r. find key (key r) xs ≡ some r) rs

  -- `for r in rs: f(r).save()`
  abbrev pub save_each : (A → A) → List A → List A → List A
  save_each f [] xs = xs
  save_each f (r ∷ rs) xs = save_each f rs (save key (f r) xs)

  pub Rows-save :
      (x : A) (rs xs : List A) → find key (key x) rs ≡ none → Rows rs xs → Rows rs (save key x xs)
  unfolding find
  Rows-save x [] xs h rows = tt
  Rows-save x (r ∷ rs) xs h rows =
      (find-save key (key r) x xs ∙ ground (arith, rows.0), Rows-save x rs xs (ground arith) rows.1)

  Rows-cons : (y : A) (rs ys : List A) → find key (key y) ys ≡ none → Rows rs ys → Rows rs (y ∷ ys)
  unfolding find
  Rows-cons y [] ys h rows = tt
  Rows-cons y (r ∷ rs) ys h rows = (
    elim (Bool-cases (key y == key r)) [
      | inl e ↦ absurd (cc (rows.0, h, ap (λ k. find key k ys) ((==_iff (key y) (key r)).0 e)))
      | inr e ↦ rw e rows.0
    ],
    Rows-cons y rs ys h rows.1,
  )

  find-keep-none :
      (p : A → Bool) (k : ℕ) (xs : List A) → find key k xs ≡ none → find key k (keep p xs) ≡ none
  unfolding find
  find-keep-none p k [] h = h
  find-keep-none p k (y ∷ ys) h =
      ground (arith, λ (e : find key k ys ≡ none). find-keep-none p k ys e)

  pub Distinct-keep : (p : A → Bool) (xs : List A) → Distinct key xs → Distinct key (keep p xs)
  Distinct-keep p [] d = tt
  Distinct-keep p (y ∷ ys) d = elim (Bool-cases (p y)) [
    | inl e ↦ rw e (find-keep-none p (key y) ys d.0, Distinct-keep p ys d.1)
    | inr e ↦ rw e (Distinct-keep p ys d.1)
  ]

  pub Rows-keep : (p : A → Bool) (xs : List A) → Distinct key xs → Rows (keep p xs) xs
  unfolding find
  Rows-keep p [] d = tt
  Rows-keep p (y ∷ ys) d = elim (Bool-cases (p y)) [
    | inl e ↦ rw e (rw ==_refl refl, Rows-cons y (keep p ys) ys d.0 (Rows-keep p ys d.1))
    | inr e ↦ rw e (Rows-cons y (keep p ys) ys d.0 (Rows-keep p ys d.1))
  ]

  save_head : (x y : A) (ys : List A) → key x ≡ key y → save key x (y ∷ ys) ≡ x ∷ ys
  unfolding save
  save_head x y ys h = ground arith

  save_each-cons :
      (f : A → A) (y : A) (rs xs : List A)
      → ((r : A) → key (f r) ≡ key r)
      → find key (key y) rs ≡ none
      → save_each f rs (y ∷ xs) ≡ y ∷ save_each f rs xs
  unfolding find save
  save_each-cons f y [] xs same h = refl
  save_each-cons f y (r ∷ rs) xs same h =
      let apart : (key y == key (f r)) ≡ false = ground (arith, same r) in
      rw (apart) (save_each-cons f y rs (save key (f r) xs) same (ground arith))

  -- Writing back the rows that pass a test is the same as mapping over the whole table.
  pub save_each-keep :
      (p : A → Bool) (f : A → A) (xs : List A)
      → ((r : A) → key (f r) ≡ key r)
      → Distinct key xs
      → save_each f (keep p xs) xs ≡ map (λ r. if p r then f r else r) xs
  unfolding save
  save_each-keep p f [] same d = refl
  save_each-keep p f (y ∷ ys) same d = elim (Bool-cases (p y)) [
    | inl e ↦
        let absent : find key (key (f y)) (keep p ys) ≡ none =
          rw (same y) (find-keep-none p (key y) ys d.0) in
        rw e (
          ap (save_each f (keep p ys)) (save_head (f y) y ys (same y))
          ∙ (save_each-cons f (f y) (keep p ys) ys same absent
              ∙ ap (λ l. f y ∷ l) (save_each-keep p f ys same d.1)))
    | inr e ↦ rw e (
        save_each-cons f y (keep p ys) ys same (find-keep-none p (key y) ys d.0)
        ∙ ap (λ l. y ∷ l) (save_each-keep p f ys same d.1))
  ]

pub All-keep {ℓ} : {A : Type ℓ} (p : A → Bool) (xs : List A) → All (λ r. p r ≡ true) (keep p xs)
All-keep p [] = tt
All-keep p (y ∷ ys) = elim (Bool-cases (p y)) [
  | inl e ↦ rw e (e, All-keep p ys)
  | inr e ↦ rw e (All-keep p ys)
]

module _ {ℓ} {A : Type ℓ} (key : A → ℕ) where
  -- An update of the rows that keeps their keys is seen through every look-up.
  pub find-map :
      (f : A → A) (k : ℕ) (xs : List A)
      → ((r : A) → key (f r) ≡ key r)
      → find key k (map f xs) ≡ Option.map f (find key k xs)
  unfolding find
  find-map f k [] same = refl
  find-map f k (y ∷ ys) same = ground (arith, same y, find-map f k ys same)

  -- What holds of every row that a look-up finds holds of all rows.
  pub All-find {κ} :
      (P : A → Type κ) (xs : List A)
      → Distinct key xs
      → ((k : ℕ) (r : A) → find key k xs ≡ some r → P r)
      → All P xs
  unfolding find
  All-find P [] d h = tt
  All-find P (y ∷ ys) d h = (
    h (key y) y (rw ==_refl refl),
    All-find P ys d.1 (λ k r e. h k r (elim (Bool-cases (key y == k)) [
      | inl same ↦ absurd (cc (e, d.0, ap (λ j. find key j ys) ((==_iff (key y) k).0 same)))
      | inr apart ↦ rw apart e
    ])),
  )

module _ {ℓ} {A : Type ℓ} (key : A → ℕ) where
  pub any-find :
      (p : A → Bool) (k : ℕ) (x : A) (xs : List A)
      → find key k xs ≡ some x
      → p x ≡ true
      → any p xs ≡ true
  unfolding find
  any-find p k x [] found h = ground arith
  any-find p k x (y ∷ ys) found h =
      ground (arith, λ (e : find key k ys ≡ some x). any-find p k x ys e h)

pub map-All {ℓ κ} :
    {A : Type ℓ} {B : Type κ} (f g : A → B) (xs : List A)
    → All (λ x. f x ≡ g x) xs
    → map f xs ≡ map g xs
map-All f g [] h = refl
map-All f g (x ∷ xs) h = cc (h.0, map-All f g xs h.1)

pub map-map {ℓ κ μ} :
    {A : Type ℓ} {B : Type κ} {C : Type μ} (g : B → C) (f : A → B) (xs : List A)
    → map g (map f xs) ≡ map (λ x. g (f x)) xs
map-map g f [] = refl
map-map g f (x ∷ xs) = ap (λ l. g (f x) ∷ l) (map-map g f xs)

pub map_self {ℓ} : {A : Type ℓ} (f : A → A) (xs : List A) → ((x : A) → f x ≡ x) → map f xs ≡ xs
map_self f [] h = refl
map_self f (x ∷ xs) h = cc (h x, map_self f xs h)

-- ===== src/Prelude/Table.antt =====
-- A database table as the list of its rows, addressed by a numeric key.
pub mod Rows
use Prim.Native.Nat.{ℕ, ◌+◌, ◌≤◌}
use mathlib.Core.Path.{refl, ◌≡◌}
use mathlib.Core.Logic.{inl, inr}
use mathlib.Core.Option.{Option, none, some}
use mathlib.Core.List.{List, [], ◌∷◌, ◌++◌}
use native.Mathlib.Omega.{arith}
use civic_loop.Prelude.Tests.{==_iff, Bool-cases, ◌==◌, if◌then◌else◌, is_some}
use civic_loop.Prelude.Lists.{total}

module _ {ℓ} {A : Type ℓ} (key : A → ℕ) where
  -- `objects.filter(key=k).first()`
  unfoldable pub find : ℕ → List A → Option A
  find k [] = none
  find k (x ∷ xs) = if key x == k then some x else find k xs

  -- `row.save()` on a row that is there; keys are unique, so one row is written
  unfoldable pub save : A → List A → List A
  save x [] = []
  save x (y ∷ ys) = if key y == key x then x ∷ ys else y ∷ save x ys

  pub key-find : (k : ℕ) (xs : List A) {x : A} → find k xs ≡ some x → key x ≡ k
  unfolding find
  key-find k [] h = ground arith
  key-find k (y ∷ ys) {x} h = ground (arith, λ (p : find k ys ≡ some x). key-find k ys p)

  -- A saved row is read back, and no other row is touched.
  pub find-save :
      (k : ℕ) (x : A) (xs : List A)
      → find k (save x xs)
        ≡ (if (key x == k) then (if is_some (find k xs) then some x else none) else find k xs)
  unfolding find save
  find-save k x [] = ground arith
  find-save k x (y ∷ ys) = ground (arith, find-save k x ys)

  pub find-append :
      (k : ℕ) (x : A) (xs : List A)
      → find k (xs ++ x ∷ [])
        ≡ (if is_some (find k xs) then find k xs else if key x == k then some x else none)
  unfolding find
  find-append k x [] = ground arith
  find-append k x (y ∷ ys) = ground (arith, find-append k x ys)

  -- Saving a row exchanges its weight in every sum over the table.
  pub total-save :
      (w : A → ℕ) (x old : A) (xs : List A)
      → find (key x) xs ≡ some old
      → total w (save x xs) + w old ≡ total w xs + w x
  unfolding find save
  total-save w x old [] h = ground arith
  total-save w x old (y ∷ ys) h = ground (arith, total-save w x old ys)

  -- A row of the table weighs no more than the table.
  pub le-total : (w : A → ℕ) (k : ℕ) (xs : List A) {x : A} → find k xs ≡ some x → w x ≤ total w xs
  unfolding find
  le-total w k [] h = ground arith
  le-total w k (y ∷ ys) {x} h = ground (arith, λ (p : find k ys ≡ some x). le-total w k ys p)

  -- No two rows have one key.
  abbrev pub Distinct : List A → Type ℓ
  Distinct [] = Unit
  Distinct (x ∷ xs) = (find (key x) xs ≡ none) × Distinct xs

  -- A row that is written keeps its key, so the keys that a table lacks stay the same.
  find-save-none : (k : ℕ) (x : A) (xs : List A) → find k xs ≡ none → find k (save x xs) ≡ none
  find-save-none k x xs h = ground (arith, find-save k x xs)

  pub Distinct-save : (x : A) (xs : List A) → Distinct xs → Distinct (save x xs)
  unfolding save
  Distinct-save x [] d = tt
  Distinct-save x (y ∷ ys) d = elim (Bool-cases (key y == key x)) [
    | inl e ↦ rw e ((rw (← (==_iff (key y) (key x)).0 e) d.0), d.1)
    | inr e ↦ rw e (find-save-none (key y) x ys d.0, Distinct-save x ys d.1)
  ]

  pub Distinct-append :
      (x : A) (xs : List A) → find (key x) xs ≡ none → Distinct xs → Distinct (xs ++ x ∷ [])
  unfolding find
  Distinct-append x [] h d = (refl, tt)
  Distinct-append x (y ∷ ys) h d =
      (ground (arith, d.0, find-append (key y) x ys), Distinct-append x ys (ground arith) d.1)

  -- Only the last of two writes to a row is seen, and writing a row back as it is changes nothing.
  pub save-save : (x y : A) (xs : List A) → key x ≡ key y → save x (save y xs) ≡ save x xs
  unfolding save
  save-save x y [] h = refl
  save-save x y (z ∷ zs) h = ground (arith, save-save x y zs h)

  pub save_self : (x : A) (xs : List A) → find (key x) xs ≡ some x → save x xs ≡ xs
  unfolding save find
  save_self x [] h = refl
  save_self x (z ∷ zs) h = ground (arith, λ (e : find (key x) zs ≡ some x). save_self x zs e)

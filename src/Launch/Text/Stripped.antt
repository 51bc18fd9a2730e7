-- ===== src/Launch/Text/Stripped.antt =====
-- `strip` of backend/launchloop's texts once more changes nothing.
use Prim.Native.String.{count}
use Prim.Native.String.count.{cons}
use civic_loop.Launch.Text.{is_blank, Char, strip_left, strip_right, strip}
use civic_loop.Prelude.{
  suc, ◌≤◌, Bool, true, false, if◌then◌else◌, String, ◌≡◌, refl, ap, ◌∙◌, arith,
}

right_twice : (s : String) → strip_right (strip_right s) ≡ strip_right s
unfolding strip_right
right_twice String.[] = refl
right_twice (String.◌∷◌ c s) = ground (arith, right_twice s)

left_twice : (s : String) → strip_left (strip_left s) ≡ strip_left s
unfolding strip_left
left_twice String.[] = refl
left_twice (String.◌∷◌ c s) = ground (arith, left_twice s)

abbrev tail : String → String
tail String.[] = String.[]
tail (String.◌∷◌ c s) = s

-- A text that `strip_right` leaves alone has a rest that it leaves alone.
rest_kept :
    (drops : Bool) (c : Char) (s rest : String)
    → (if drops then String.[] else String.◌∷◌ c rest) ≡ String.◌∷◌ c s
    → rest ≡ s
rest_kept true c s rest h = ground (arith, ap is_blank h)
rest_kept false c s rest h = ap tail h

dropped :
    (space : Bool) (c : Char) (s : String)
    → strip_right (String.◌∷◌ c s) ≡ String.◌∷◌ c s
    → strip_right (strip_left s) ≡ strip_left s
    → strip_right (if space then strip_left s else String.◌∷◌ c s)
      ≡ (if space then strip_left s else String.◌∷◌ c s)
dropped true c s h k = k
dropped false c s h k = h

-- The left end leaves the right one alone.
right-left : (s : String) → strip_right s ≡ s → strip_right (strip_left s) ≡ strip_left s
unfolding strip_left strip_right
right-left String.[] h = refl
right-left (String.◌∷◌ c s) h = dropped _ c s h (right-left s (rest_kept _ c s (strip_right s) h))

pub strip_twice : (s : String) → strip (strip s) ≡ strip s
unfolding strip
strip_twice s =
    ap strip_left (right-left (strip_right s) (right_twice s)) ∙ left_twice (strip_right s)

count-cons : (c : Char) (s : String) → count (String.◌∷◌ c s) ≡ suc (count s)
count-cons c s = λ i. cons c s i

left_shorter :
    (space : Bool) (c : Char) (s t : String)
    → count t ≤ count s
    → count (if space then t else String.◌∷◌ c s) ≤ count (String.◌∷◌ c s)
left_shorter true c s t h = omega (arith, h, count-cons c s)
left_shorter false c s t h = omega arith

right_shorter :
    (drops : Bool) (c : Char) (s t : String)
    → count t ≤ count s
    → count (if drops then String.[] else String.◌∷◌ c t) ≤ count (String.◌∷◌ c s)
right_shorter true c s t h = omega (arith, count-cons c s)
right_shorter false c s t h = omega (arith, h, count-cons c s, count-cons c t)

count-strip_left : (s : String) → count (strip_left s) ≤ count s
unfolding strip_left
count-strip_left String.[] = omega arith
count-strip_left (String.◌∷◌ c s) = left_shorter _ c s (strip_left s) (count-strip_left s)

count-strip_right : (s : String) → count (strip_right s) ≤ count s
unfolding strip_right
count-strip_right String.[] = omega arith
count-strip_right (String.◌∷◌ c s) = right_shorter _ c s (strip_right s) (count-strip_right s)

pub count-strip : (s : String) → count (strip s) ≤ count s
unfolding strip
count-strip s = omega (arith, count-strip_left (strip_right s), count-strip_right s)

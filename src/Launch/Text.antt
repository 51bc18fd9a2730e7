-- ===== src/Launch/Text.antt =====
-- The operations on texts that backend/launchloop uses: `str`, `lower`, `strip`, `replace`,
-- `endswith`.
-- `lower` is that of ASCII: the letters of other alphabets are kept, and no sponsor tier has any.
pub mod Stripped
use Prim.Native.Char.{Char, code}
use Prim.Native.String.{◌++◌ as append}
use civic_loop.Prelude.{
  ◌++◌, ℕ, zero, suc, ◌+◌, ◌-◌, ◌/◌, ◌%◌, String, Bool, true, false, ◌&&◌, ◌||◌, List, [], ◌∷◌, any,
  ltb, leb, ◌==◌, if◌then◌else◌,
}
use civic_loop.Launch.{Value, null, flag, number, text}

-- The concatenation of the parts of an f-string.
abbrev pub concat : List String → String
concat [] = ""
concat (s ∷ rest) = append s (concat rest)

abbrev digit : ℕ → String
digit n =
    if n == 0
    then "0"
    else if n == 1
    then "1"
    else if n == 2
    then "2"
    else if n == 3
    then "3"
    else if n == 4
    then "4"
    else if n == 5
    then "5"
    else if n == 6
    then "6"
    else if n == 7
    then "7"
    else if n == 8
    then "8"
    else "9"

-- The decimal digits of a number; the number itself is fuel enough, since each round divides it
-- by ten.
abbrev decimal_from : ℕ → ℕ → String → String
decimal_from zero n rest = rest
decimal_from (suc f) n rest =
    let longer = decimal_from f (n / 10) (append (digit (n % 10)) rest) in
    if n == 0 then rest else longer

unfoldable pub decimal : ℕ → String
decimal n = if n == 0 then "0" else decimal_from n n ""

-- `str(value)`
unfoldable pub show : Value → String
unfolding decimal
show null = "None"
show (flag true) = "True"
show (flag false) = "False"
show (number n) = decimal n
show (text s) = s

abbrev upper_letters : List (ℕ × Char)
upper_letters =
    (b'A', "a")
    ∷ (b'B', "b")
    ∷ (b'C', "c")
    ∷ (b'D', "d")
    ∷ (b'E', "e")
    ∷ (b'F', "f")
    ∷ (b'G', "g")
    ∷ (b'H', "h")
    ∷ (b'I', "i")
    ∷ (b'J', "j")
    ∷ (b'K', "k")
    ∷ (b'L', "l")
    ∷ (b'M', "m")
    ∷ (b'N', "n")
    ∷ (b'O', "o")
    ∷ (b'P', "p")
    ∷ (b'Q', "q")
    ∷ (b'R', "r")
    ∷ (b'S', "s")
    ∷ (b'T', "t")
    ∷ (b'U', "u")
    ∷ (b'V', "v")
    ∷ (b'W', "w")
    ∷ (b'X', "x")
    ∷ (b'Y', "y")
    ∷ (b'Z', "z")
    ∷ []

abbrev lower_char : List (ℕ × Char) → Char → Char
lower_char [] c = c
lower_char ((upper, small) ∷ rest) c = if code c == upper then small else lower_char rest c

unfoldable pub lower : String → String
lower String.[] = String.[]
lower (String.◌∷◌ c s) = String.◌∷◌ (lower_char upper_letters c) (lower s)

-- `field.replace("_", " ")`
unfoldable pub spaced : String → String
spaced String.[] = String.[]
spaced (String.◌∷◌ c s) = String.◌∷◌ (if code c == b'_' then " " else c) (spaced s)

-- The characters that `strip` removes: `str.isspace`.
unfoldable is_space : ℕ → Bool
is_space c =
    (leb 9 c && leb c 13)
    || ((leb 28 c && leb c 32)
        || ((c == 133)
            || ((c == 160)
                || ((c == 5_760)
                    || ((leb 8_192 c && leb c 8_202)
                        || ((c == 8_232)
                            || ((c == 8_233)
                                || ((c == 8_239) || ((c == 8_287) || (c == 12_288))))))))))

abbrev is_blank : String → Bool
is_blank String.[] = true
is_blank (String.◌∷◌ c s) = false

unfoldable strip_left : String → String
unfolding is_space
strip_left String.[] = String.[]
strip_left (String.◌∷◌ c s) =
    let rest = strip_left s in if is_space (code c) then rest else String.◌∷◌ c s

unfoldable strip_right : String → String
unfolding is_space
strip_right String.[] = String.[]
strip_right (String.◌∷◌ c s) =
    let rest = strip_right s in
    if is_space (code c) && is_blank rest then String.[] else String.◌∷◌ c rest

unfoldable pub strip : String → String
unfolding strip_left strip_right
strip s = strip_left (strip_right s)

-- Whether the last character is one of these.
unfoldable pub ends_in : List ℕ → String → Bool
ends_in marks String.[] = false
ends_in marks (String.◌∷◌ c String.[]) = any (λ m. m == code c) marks
ends_in marks (String.◌∷◌ c (String.◌∷◌ d s)) = ends_in marks (String.◌∷◌ d s)

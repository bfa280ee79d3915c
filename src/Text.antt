-- ===== src/Text.antt =====
-- The methods of JavaScript's strings that the program calls: `trim` and the
-- test for the empty string. A text is its list of code points.
pub mod Decimal
pub mod Order
use Prim.Native.Char.{Char, code}
use Prim.Native.String.{String, [], ◌∷◌}
use jiffy_messaging.Base
use jiffy_messaging.Base.{
  ℕ, Bool, true, false, ◌||◌, ◌&&◌, leb, if◌then◌else◌, ◌≡◌, refl, arith, Bool-cases, inl, inr,
}

abbrev is_between : ℕ → ℕ → ℕ → Bool
is_between lo hi n = leb lo n && leb n hi

-- ECMAScript's WhiteSpace and LineTerminator code points.
is_white_code : ℕ → Bool
is_white_code n =
    is_between 9 13 n
    || is_between 32 32 n
    || is_between 160 160 n
    || is_between 0x1680 0x1680 n
    || is_between 0x2000 0x200a n
    || is_between 0x2028 0x2029 n
    || is_between 0x202f 0x202f n
    || is_between 0x205f 0x205f n
    || is_between 0x3000 0x3000 n
    || is_between 0xfeff 0xfeff n

unfoldable pub is_white_space : Char → Bool
unfolding is_white_code
is_white_space c = is_white_code (code c)

unfoldable pub is_empty : String → Bool
is_empty [] = true
is_empty (c ∷ s) = false

unfoldable pub trim_start : String → String
trim_start [] = []
trim_start (c ∷ s) = if is_white_space c then trim_start s else c ∷ s

-- A character before a text that is already trimmed at its end.
cons_trimmed : Char → String → String
cons_trimmed c [] = if is_white_space c then [] else c ∷ []
cons_trimmed c (d ∷ s) = c ∷ d ∷ s

unfoldable pub trim_end : String → String
unfolding cons_trimmed
trim_end [] = []
trim_end (c ∷ s) = cons_trimmed c (trim_end s)

unfoldable pub trim : String → String
trim s = trim_end (trim_start s)

-- Every character is white space.
unfoldable pub is_blank : String → Bool
is_blank [] = true
is_blank (c ∷ s) = is_white_space c && is_blank s

is_empty-cons_trimmed :
    (c : Char) (s : String) → is_empty (cons_trimmed c s) ≡ (is_white_space c && is_empty s)
unfolding is_empty cons_trimmed
is_empty-cons_trimmed c [] = elim (Bool-cases (is_white_space c)) [
  | inl e ↦ rw (e, cons_trimmed)
  | inr e ↦ rw (e, cons_trimmed)
]
is_empty-cons_trimmed c (d ∷ s) = ground arith

is_empty-trim_end : (s : String) → is_empty (trim_end s) ≡ is_blank s
unfolding trim_end is_blank
is_empty-trim_end [] = unfold is_empty in refl
is_empty-trim_end (c ∷ s) =
    ground (arith, is_empty-cons_trimmed c (trim_end s), is_empty-trim_end s)

is_blank-trim_start : (s : String) → is_blank (trim_start s) ≡ is_blank s
unfolding trim_start is_blank
is_blank-trim_start [] = refl
is_blank-trim_start (c ∷ s) = ground (arith, is_blank-trim_start s)

-- Trimming leaves nothing of a text exactly when the text is white space throughout.
pub is_empty-trim : (s : String) → is_empty (trim s) ≡ is_blank s
unfolding trim
is_empty-trim s = Base.◌∙◌ (is_empty-trim_end (trim_start s)) (is_blank-trim_start s)

-- ===== src/Text/Decimal.antt =====
-- How JavaScript writes a natural number into a template.
use Prim.Native.Nat.{zero, suc, ◌/◌, ◌%◌}
use Prim.Native.String
use jiffy_messaging.Base.{ℕ, String, List, [], ◌∷◌, leb, if◌then◌else◌}

abbrev digit : ℕ → String
digit n = digit_of n ("0" ∷ "1" ∷ "2" ∷ "3" ∷ "4" ∷ "5" ∷ "6" ∷ "7" ∷ "8" ∷ "9" ∷ [])
  where
    digit_of : ℕ → List String → String
    digit_of n [] = ""
    digit_of zero (d ∷ ds) = d
    digit_of (suc n) (d ∷ ds) = digit_of n ds

-- The digits of a number; the number itself is fuel enough, since each round takes off a digit.
decimal_from : ℕ → ℕ → String
decimal_from zero n = digit n
decimal_from (suc fuel) n =
    let rest = decimal_from fuel (n / 10) in
    if leb n 9 then digit n else String.◌++◌ rest (digit (n % 10))

-- `String(n)` of a natural number, as in a template.
unfoldable pub decimal : ℕ → String
unfolding decimal_from
decimal n = decimal_from n n

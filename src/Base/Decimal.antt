-- ===== src/Base/Decimal.antt =====
-- Decimal text of a natural number, as `BigInt(text)`, `n.toString()` and the pattern
-- /^(0|[1-9]\d*)$/ treat it. A text is the list of its code units.
use concord_dev.Base.Tests.{leb, ltb, if◌then◌else◌}
use Prim.Native.Nat.{ℕ, zero, suc, ◌+◌, ◌-◌, ◌*◌, ◌/◌, ◌%◌, ◌<◌}
use mathlib.Core.Path.{◌≡◌, refl, ◌∙◌}
use mathlib.Core.Bool.{Bool, true, false, ◌&&◌}
use mathlib.Core.List.{List, [], ◌∷◌}
use native.Mathlib.Omega.{arith}

abbrev pub is_digit : ℕ → Bool
is_digit c = leb b'0' c && leb c b'9'

unfoldable pub all_digits : List ℕ → Bool
all_digits [] = true
all_digits (c ∷ s) = is_digit c && all_digits s

-- /^(0|[1-9]\d*)$/
unfoldable pub is_canonical : List ℕ → Bool
unfolding all_digits
is_canonical [] = false
is_canonical (c ∷ []) = is_digit c
is_canonical (c ∷ d ∷ s) = leb b'1' c && leb c b'9' && all_digits (d ∷ s)

unfoldable pub value_from : ℕ → List ℕ → ℕ
value_from acc [] = acc
value_from acc (c ∷ s) = value_from (acc * 10 + (c - b'0')) s

-- `BigInt(text)` of a text of digits.
unfoldable pub to_nat : List ℕ → ℕ
unfolding value_from
to_nat s = value_from 0 s

unfoldable pub print_onto : ℕ → ℕ → List ℕ → List ℕ
print_onto zero n rest = rest
print_onto (suc fuel) n rest =
    let more = print_onto fuel (n / 10) ((b'0' + n % 10) ∷ rest) in
    if ltb n 10 then (b'0' + n) ∷ rest else more

-- `n.toString()`. A number has fewer digits than it has units, so the fuel is enough.
unfoldable pub print : ℕ → List ℕ
unfolding print_onto
print n = print_onto (suc n) n []

value_from-print_onto :
    (fuel n : ℕ) (rest : List ℕ)
    → n < fuel
    → value_from 0 (print_onto fuel n rest) ≡ value_from n rest
unfolding value_from print_onto
value_from-print_onto zero n rest h = elim h [ ]
value_from-print_onto (suc fuel) n rest h =
    ground (arith, value_from-print_onto fuel (n / 10) ((b'0' + n % 10) ∷ rest))

-- Printing and reading gives the number back.
pub to_nat-print : (n : ℕ) → to_nat (print n) ≡ n
unfolding to_nat print
to_nat-print n = value_from-print_onto (suc n) n [] (omega arith) ∙ (unfold value_from in refl)

is_canonical-print_onto :
    (fuel n : ℕ) (rest : List ℕ)
    → n < fuel
    → 0 < n
    → all_digits rest ≡ true
    → is_canonical (print_onto fuel n rest) ≡ true
unfolding is_canonical print_onto
is_canonical-print_onto zero n rest h p d = elim h [ ]
is_canonical-print_onto (suc fuel) n rest h p d =
    ground (arith, is_canonical-print_onto fuel (n / 10) ((b'0' + n % 10) ∷ rest))

-- What is printed is canonical.
pub is_canonical-print : (n : ℕ) → is_canonical (print n) ≡ true
unfolding print
is_canonical-print zero = unfold is_canonical in refl
is_canonical-print (suc n) =
    is_canonical-print_onto (suc (suc n)) (suc n) [] (omega arith) (omega arith)
      (unfold all_digits in refl)

-- ===== src/Base/Text/Number.antt =====
-- `strconv.Atoi`: an optional sign and decimal digits, in the range of a 64-bit `int`.
use Prim.Native.Nat.{ℕ, zero, suc, ◌+◌, ◌-◌, ◌*◌, ◌^◌, ◌/◌, ◌%◌}
use mathlib.Core.Bool.{◌&&◌}
use mathlib.Core.Option.{Option, none, some}
use mathlib.Core.List.{List, [], ◌∷◌}
use vcltest.Base.Tests.{leb, nat_beq, if◌then◌else◌}
use vcltest.Base.Int.{ℤ, pos, negsuc, fits_int}

abbrev pub max_int : ℕ
max_int = 2 ^ 63 - 1

-- The number that digits spell behind `n`; `none` at a byte that is no digit.
unfoldable pub digits_value : ℕ → List ℕ → Option ℕ
digits_value n [] = some n
digits_value n (c ∷ s) =
    let rest = digits_value (n * 10 + (c - b'0')) s in
    if leb b'0' c && leb c b'9' then rest else none

abbrev unsigned : List ℕ → Option ℕ
unfolding digits_value
unsigned [] = none
unsigned (c ∷ s) = digits_value 0 (c ∷ s)

abbrev negative : ℕ → ℤ
negative n = elim n [ zero ↦ pos 0 | suc m ↦ negsuc m ]

abbrev in_range : ℤ → Option ℤ
in_range z = if fits_int z then some z else none

unfoldable pub atoi : List ℕ → Option ℤ
unfolding digits_value
atoi [] = none
atoi (c ∷ s) =
    if nat_beq c b'-'
    then elim (unsigned s) [ none ↦ none | some n ↦ in_range (negative n) ]
    else if nat_beq c b'+'
    then elim (unsigned s) [ none ↦ none | some n ↦ in_range (pos n) ]
    else elim (unsigned (c ∷ s)) [ none ↦ none | some n ↦ in_range (pos n) ]

-- `%d` of a number: its last digit behind the others; `fuel` bounds the digits.
unfoldable pub decimal_digits : ℕ → ℕ → List ℕ → List ℕ
decimal_digits zero n acc = acc
decimal_digits (suc fuel) n acc =
    let more = decimal_digits fuel (n / 10) ((b'0' + n % 10) ∷ acc) in
    if nat_beq (n / 10) 0 then (b'0' + n % 10) ∷ acc else more

unfoldable pub decimal : ℕ → List ℕ
unfolding decimal_digits
decimal n = decimal_digits (n + 1) n []

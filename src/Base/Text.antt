-- ===== src/Base/Text.antt =====
-- Text as the standard library prints and reads it: `u32::to_string` and `str::parse::<u32>`.
use Prim.Native.Char.{code}
use Prim.Native.Nat.{ℕ, zero, suc, ◌+◌, ◌-◌, ◌*◌, ◌/◌, ◌%◌, ◌^◌}
use Prim.Native.String.{String, ◌++◌ as append}
use mathlib.Core.Path.{◌≡◌, refl}
use mathlib.Core.Bool.{◌&&◌}
use mathlib.Core.List.{List, [], ◌∷◌}
use mathlib.Core.Option.{Option, none, some}
use rekindle.Base.Tests.{ltb, leb, ◌==◌, if◌then◌else◌}

-- The code points of a text. `String` has its own `[]` and `∷`.
abbrev pub codes : String → List ℕ
codes String.[] = []
codes (String.◌∷◌ c s) = code c ∷ codes s

-- The digits of a number, read from the left; `none` at a character that is no digit, and where
-- the value leaves the 32 bits.
parse_digits : ℕ → List ℕ → Option ℕ
parse_digits acc [] = some acc
parse_digits acc (c ∷ cs) =
    let value = acc * 10 + (c - b'0') in
    let rest = parse_digits value cs in
    if leb b'0' c && leb c b'9' && ltb value (2 ^ 32) then rest else none

parse_codes : List ℕ → Option ℕ
unfolding parse_digits
parse_codes [] = none
parse_codes (c ∷ []) = if c == b'+' then none else parse_digits 0 (c ∷ [])
parse_codes (c ∷ d ∷ cs) =
    if c == b'+' then parse_digits 0 (d ∷ cs) else parse_digits 0 (c ∷ d ∷ cs)

-- `s.parse::<u32>().ok()`
unfoldable pub parse_u32 : String → Option ℕ
unfolding parse_codes
parse_u32 s = parse_codes (codes s)

parse_two : parse_u32 "42" ≡ some 42
unfolding parse_u32
parse_two = refl

parse_limits : parse_u32 "4294967296" ≡ none
unfolding parse_u32
parse_limits = refl

parse_max : parse_u32 "+4294967295" ≡ some 4294967295
unfolding parse_u32
parse_max = refl

digit : ℕ → String
digit d =
    if d == 0
    then "0"
    else if d == 1
    then "1"
    else if d == 2
    then "2"
    else if d == 3
    then "3"
    else if d == 4
    then "4"
    else if d == 5
    then "5"
    else if d == 6
    then "6"
    else if d == 7
    then "7"
    else if d == 8
    then "8"
    else "9"

decimal_fuel : ℕ → ℕ → String
decimal_fuel zero n = ""
decimal_fuel (suc f) n =
    let rest = decimal_fuel f (n / 10) in if ltb n 10 then digit n else append rest (digit (n % 10))

-- `{n}` in a `format!` of a `u64`: 20 digits at most.
unfoldable pub decimal : ℕ → String
unfolding decimal_fuel digit
decimal n = decimal_fuel 20 n

decimal_test : decimal 18446744073709551615 ≡ "18446744073709551615"
unfolding decimal
decimal_test = refl

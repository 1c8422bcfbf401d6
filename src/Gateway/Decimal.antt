-- ===== src/Gateway/Decimal.antt =====
-- The decimal text of a number, as a template literal writes it.
use Prim.Native.String.{◌++◌ as ◌<>◌}
use alchemy_alibaba.Prelude.{ℕ, zero, suc, ◌+◌, ◌/◌, ◌%◌, String, ltb, if◌then◌else◌, ◌==◌}

abbrev digit_text : ℕ → String
digit_text d =
    if d == 0
    then "0"
    else if d == 1
    then "1"
    else if d == 2
    then "2"
    else if d == 3
    then "3"
    else if d == 4
    then "4"
    else if d == 5
    then "5"
    else if d == 6
    then "6"
    else if d == 7
    then "7"
    else if d == 8
    then "8"
    else "9"

-- A number has fewer digits than its value and one.
digits_text : ℕ → ℕ → String
digits_text zero n = ""
digits_text (suc fuel) n =
    let rest = digits_text fuel (n / 10) in
    if ltb n 10 then digit_text n else rest <> digit_text (n % 10)

unfoldable pub decimal_text : ℕ → String
unfolding digits_text
decimal_text n = digits_text (n + 1) n

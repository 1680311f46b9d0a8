-- ===== src/Base/Decimal.antt =====
-- The decimal text of a 64-bit number, as `format!` writes it.
use Prim.Native.Nat.{ℕ, zero, suc, ◌/◌, ◌%◌}
use Prim.Native.String.{String, ◌++◌}
use maharit_db.Base.Tests.{if◌then◌else◌, ltb, nat_beq}

digit_text : ℕ → String
digit_text d =
    if nat_beq d 0
    then "0"
    else if nat_beq d 1
    then "1"
    else if nat_beq d 2
    then "2"
    else if nat_beq d 3
    then "3"
    else if nat_beq d 4
    then "4"
    else if nat_beq d 5
    then "5"
    else if nat_beq d 6
    then "6"
    else if nat_beq d 7
    then "7"
    else if nat_beq d 8
    then "8"
    else "9"

digits : ℕ → ℕ → String
unfolding digit_text
digits zero n = ""
digits (suc places) n =
    let front = digits places (n / 10) in
    if ltb n 10 then digit_text n else front ++ digit_text (n % 10)

-- twenty places are enough for 64 bits
unfoldable pub decimal : ℕ → String
unfolding digits
decimal n = digits 20 n

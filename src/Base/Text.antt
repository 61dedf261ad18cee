-- ===== src/Base/Text.antt =====
-- Numbers in decimal: `std::to_string`.
use Prim.Native.Nat.{ℕ, zero, suc, ◌+◌, ◌/◌, ◌%◌}
use Prim.Native.Char.{Char}
use Prim.Native.String.{String}
use coin_bot.Base.Tests.{◌==◌, if◌then◌else◌}

unfoldable pub digit : ℕ → Char
digit n =
    if n == 0
    then "0"
    else if n == 1
    then "1"
    else if n == 2
    then "2"
    else if n == 3
    then "3"
    else if n == 4
    then "4"
    else if n == 5
    then "5"
    else if n == 6
    then "6"
    else if n == 7
    then "7"
    else if n == 8
    then "8"
    else "9"

-- The digits of `n` before `rest`. There are no more of them than `n`, and one at least.
unfoldable pub show_before : ℕ → ℕ → String → String
unfolding digit
show_before zero n rest = rest
show_before (suc fuel) n rest =
    let more = String.◌∷◌ (digit (n % 10)) rest in
    let longer = show_before fuel (n / 10) more in if n / 10 == 0 then more else longer

unfoldable pub show : ℕ → String
unfolding show_before
show n = show_before (n + 1) n ""

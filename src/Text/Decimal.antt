-- ===== src/Text/Decimal.antt =====
-- Numbers in texts: `str(n)` and `int(s)` for the natural numbers, and `t in s`.
use Prim.Native.Nat.{◌*◌, ◌/◌, ◌%◌}
use Prim.Native.Char.{code}
use Prim.Native.String
use text.Mathlib.Text.{find?}
use external_domain_broker.Prelude.{
  ℕ, zero, suc, ◌+◌, ◌-◌, String, string_eq, ◌==◌, Bool, true, false, ◌&&◌, none, some, Result, ok,
  err, leb, ltb, value_error, if◌then◌else◌,
}

-- `t in s`
abbrev pub contains : String → String → Bool
contains s t = elim (find? s t) [ none ↦ false | some n ↦ true ]

digit : ℕ → String
digit n =
    if ltb n 1
    then "0"
    else if ltb n 2
    then "1"
    else if ltb n 3
    then "2"
    else if ltb n 4
    then "3"
    else if ltb n 5
    then "4"
    else if ltb n 6
    then "5"
    else if ltb n 7
    then "6"
    else if ltb n 8
    then "7"
    else if ltb n 9
    then "8"
    else "9"

-- The digits of `n`, in front of `rest`; `n + 1` rounds are more than there are digits.
digits : ℕ → ℕ → String → String
unfolding digit
digits zero n rest = rest
digits (suc rounds) n rest =
    let more = digits rounds (n / 10) (String.◌++◌ (digit (n % 10)) rest) in
    if ltb n 10 then String.◌++◌ (digit n) rest else more

-- `str(n)`
unfoldable pub decimal : ℕ → String
unfolding digits
decimal n = digits (suc n) n ""

-- The value of a text of digits, read after a number.
read_digits : ℕ → String → Result ℕ
read_digits n String.[] = ok n
read_digits n (String.◌∷◌ c s) =
    let rest = read_digits (n * 10 + (code c - b'0')) s in
    if leb b'0' (code c) && leb (code c) b'9' then rest else err value_error

-- `int(s)` of a text without sign, spaces and underscores.
unfoldable pub int_of : String → Result ℕ
unfolding read_digits
int_of s = elim (s == "") [ true ↦ err value_error | false ↦ read_digits 0 s ]

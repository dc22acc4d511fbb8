-- ===== src/Stdio.antt =====
-- `itoa` and `vsprintf` of src/lib/stdio.c.
-- What they write is the list of the characters, in order; `vsprintf` writes no zero byte behind them,
-- so that the length that it returns, up to the first zero byte in the buffer, is not modelled.
-- `args` are the words on the stack, of which the next one is number `n`, and `strings` is what the
-- strings in memory hold. An `int` is kept as its 32 bits.
pub mod Digits
pub mod Render
mod Tests
use tros.Prelude.{
  ℕ, zero, suc, ◌+◌, ◌-◌, ◌*◌, ◌/◌, ◌%◌, ◌^◌, Bool, true, false, not, List, [], ◌∷◌, ◌++◌, ltb, leb,
  ◌==◌, if◌then◌else◌, sub32, Run, ok, out_of_fuel, ◌>>=◌, ◌>>◌, assert,
}

-- The character of a digit.
abbrev pub digit : ℕ → ℕ
digit m = if ltb m 10 then m + 48 else m - 10 + 65

unfoldable pub itoa : (fuel value base : ℕ) → Run (List ℕ)
itoa zero value base = out_of_fuel
itoa (suc fuel) value base =
    let m = value % base in
    let i = value / base in
    let higher = itoa fuel i base in
    (if i == 0 then ok [] else higher) >>= λ cs. ok (cs ++ (digit m ∷ []))

-- Enough for 32 bits.
abbrev pub itoa_fuel : ℕ
itoa_fuel = 33

-- Characters, and what follows them.
abbrev pub emit : Run (List ℕ) → Run (List ℕ) → Run (List ℕ)
emit written rest = written >>= λ cs. rest >>= λ ds. ok (cs ++ ds)

abbrev pub is_negative : ℕ → Bool
is_negative x = leb (2 ^ 31) x

-- case 'd'
unfoldable pub put_decimal : (arg_int : ℕ) → Run (List ℕ)
unfolding itoa
put_decimal arg_int =
    if is_negative arg_int
    then emit (ok (45 ∷ [])) (itoa itoa_fuel (sub32 0 arg_int) 10)
    else itoa itoa_fuel arg_int 10

-- For `%s`, strcpy and strlen have an ASSERT that the string is not NULL.
-- A `%` and another character are looked at together; a `%` before none of "scdx" is skipped.
unfoldable pub vsprintf :
    (strings : ℕ → List ℕ) → (format : List ℕ) → (args : ℕ → ℕ) → (n : ℕ) → Run (List ℕ)
unfolding put_decimal itoa
vsprintf strings [] args n = ok []
vsprintf strings (c ∷ []) args n = if c == 37 then ok [] else ok (c ∷ [])
vsprintf strings (c ∷ d ∷ format) args n =
    let as_text = vsprintf strings (d ∷ format) args n in
    let behind = vsprintf strings format args (n + 1) in
    if not (c == 37)
    then emit (ok (c ∷ [])) as_text
    else if d == 115
    then assert (not (args n == 0)) >> emit (ok (strings (args n))) behind
    else if d == 99
    then emit (ok (args n % 256 ∷ [])) behind
    else if d == 100
    then emit (put_decimal (args n)) behind
    else if d == 120
    then emit (itoa itoa_fuel (args n) 16) behind
    else as_text

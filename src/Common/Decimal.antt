-- ===== src/Common/Decimal.antt =====
-- `strconv.Itoa`, and the reading of a decimal number.
use Prim.Native.Nat.{ℕ, zero, suc, ◌+◌, ◌-◌, ◌*◌, ◌/◌, ◌%◌, ◌<◌}
use Prim.Native.Char.{Char, char, code}
use Prim.Native.String.{String, ◌++◌}
use mathlib.Core.Path.{◌≡◌, refl}
use mathlib.Core.Logic.{◌≢◌, ◌⊎◌, inl, inr}
use mathlib.Core.Bool.{◌&&◌}
use text.Mathlib.Text.{◌==◌}
use text.Mathlib.TextEquality.{eq_iff}
use mathlib.Core.Option.{Option, none, some}
use native.Mathlib.Omega.{arith}
use sf_operator.Common.Tests.{ltb, leb, eqb, if◌then◌else◌}
use sf_operator.Common.Int.{ℤ, pos, negsuc}

digit : ℕ → Char
digit n =
    if eqb n 0
    then char 48 tt
    else if eqb n 1
    then char 49 tt
    else if eqb n 2
    then char 50 tt
    else if eqb n 3
    then char 51 tt
    else if eqb n 4
    then char 52 tt
    else if eqb n 5
    then char 53 tt
    else if eqb n 6
    then char 54 tt
    else if eqb n 7
    then char 55 tt
    else if eqb n 8
    then char 56 tt
    else char 57 tt

code-digit : (n : ℕ) → n < 10 → code (digit n) ≡ 48 + n
unfolding digit
code-digit zero h = refl
code-digit (suc zero) h = refl
code-digit (suc (suc zero)) h = refl
code-digit (suc (suc (suc zero))) h = refl
code-digit (suc (suc (suc (suc zero)))) h = refl
code-digit (suc (suc (suc (suc (suc zero))))) h = refl
code-digit (suc (suc (suc (suc (suc (suc zero)))))) h = refl
code-digit (suc (suc (suc (suc (suc (suc (suc zero))))))) h = refl
code-digit (suc (suc (suc (suc (suc (suc (suc (suc zero)))))))) h = refl
code-digit (suc (suc (suc (suc (suc (suc (suc (suc (suc zero))))))))) h = refl
code-digit (suc (suc (suc (suc (suc (suc (suc (suc (suc (suc n)))))))))) h = absurd (omega arith)

-- The digits of `n` before the text `out`. A number has fewer digits than its successor's value.
digits : ℕ → ℕ → String → String
digits zero n out = out
digits (suc fuel) n out =
    let rest = digits fuel (n / 10) (String.◌∷◌ (digit (n % 10)) out) in
    if ltb n 10 then String.◌∷◌ (digit n) out else rest

unfoldable pub decimal : ℕ → String
unfolding digits digit
decimal n = digits (suc n) n ""

unfoldable pub itoa : ℤ → String
unfolding decimal
itoa (pos n) = decimal n
itoa (negsuc n) = "-" ++ decimal (suc n)

scan : String → ℕ → Option ℕ
scan String.[] n = some n
scan (String.◌∷◌ c s) n =
    let rest = scan s (n * 10 + (code c - 48)) in
    if leb 48 (code c) && leb (code c) 57 then rest else none

-- Any number, whatever its size.
unfoldable pub read_decimal : String → Option ℕ
unfolding scan
read_decimal s = if s == "" then none else scan s 0

scan-digit :
    (d n : ℕ) (out : String) → d < 10 → scan (String.◌∷◌ (digit d) out) n ≡ scan out (n * 10 + d)
unfolding scan
scan-digit d n out h = ground (arith, code-digit d h)

scan-digits : (fuel n : ℕ) (out : String) → n < fuel → scan (digits fuel n out) 0 ≡ scan out n
unfolding digits
scan-digits zero n out h = absurd (ground arith)
scan-digits (suc fuel) n out h = ground (
  arith,
  scan-digit n 0 out,
  scan-digits fuel (n / 10) (String.◌∷◌ (digit (n % 10)) out),
  scan-digit (n % 10) (n / 10) out,
)

cons_nonempty : (c : Char) (s : String) → String.◌∷◌ c s ≢ ""
cons_nonempty c s e = cc

digits-nonempty : (fuel n : ℕ) (out : String) → (zero < fuel) ⊎ (out ≢ "") → digits fuel n out ≢ ""
unfolding digits
digits-nonempty zero n out (inl h) = absurd (omega arith)
digits-nonempty zero n out (inr h) = h
digits-nonempty (suc fuel) n out h = λ e. ground (
  arith,
  digits-nonempty fuel (n / 10) (String.◌∷◌ (digit (n % 10)) out)
      (inr (cons_nonempty (digit (n % 10)) out)),
  cons_nonempty (digit n) out,
)

-- A number that is written and read again.
pub read_decimal-decimal : (n : ℕ) → read_decimal (decimal n) ≡ some n
unfolding read_decimal decimal scan
read_decimal-decimal n = ground (
  arith,
  eq_iff (digits (suc n) n "") "",
  digits-nonempty (suc n) n "" (inl (omega arith)),
  scan-digits (suc n) n "" (omega arith),
)

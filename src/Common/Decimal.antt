-- ===== src/Common/Decimal.antt =====
-- strconv.ParseUint(s, 10, 0) and fmt.Sprintf("%d", n) on texts of ASCII digits, for 64-bit words.
use Prim.Native.Nat.{ℕ, zero, suc, ◌+◌, ◌-◌, ◌*◌, ◌/◌, ◌%◌, ◌^◌, ◌<◌}
use Prim.Native.Char.{Char, code}
use Prim.Native.String.{String}
use mathlib.Core.Path.{◌≡◌, refl}
use mathlib.Core.Bool.{Bool, true, false, ◌&&◌}
use mathlib.Core.Option.{Option, none, some}
use native.Mathlib.Omega.{arith}
use step_runner.Common.Tests.{ltb, leb, if◌then◌else◌}

abbrev pub max_uint : ℕ
max_uint = 2 ^ 64

-- `\d`
abbrev pub is_digit : ℕ → Bool
is_digit c = leb 48 c && leb c 57

-- `\d*`
unfoldable pub all_digits : String → Bool
all_digits String.[] = true
all_digits (String.◌∷◌ c s) = is_digit (code c) && all_digits s

-- `\d+`
unfoldable pub is_number : String → Bool
unfolding all_digits
is_number String.[] = false
is_number (String.◌∷◌ c s) = all_digits (String.◌∷◌ c s)

-- The value of digits that follow those of `n`.
unfoldable pub digits_value : ℕ → String → ℕ
digits_value n String.[] = n
digits_value n (String.◌∷◌ c s) = digits_value (n * 10 + (code c - 48)) s

-- strconv.ParseUint of a text of digits: none is the error ErrRange
unfoldable pub parse_uint : String → Option ℕ
unfolding digits_value
parse_uint s = let n = digits_value 0 s in if ltb n max_uint then some n else none

abbrev digit : ℕ → Char
digit zero = "0"
digit (suc zero) = "1"
digit (suc (suc zero)) = "2"
digit (suc (suc (suc zero))) = "3"
digit (suc (suc (suc (suc zero)))) = "4"
digit (suc (suc (suc (suc (suc zero))))) = "5"
digit (suc (suc (suc (suc (suc (suc zero)))))) = "6"
digit (suc (suc (suc (suc (suc (suc (suc zero))))))) = "7"
digit (suc (suc (suc (suc (suc (suc (suc (suc zero)))))))) = "8"
digit (suc (suc (suc (suc (suc (suc (suc (suc (suc n))))))))) = "9"

-- The digits of a number in front of a text; there are less than the fuel.
unfoldable pub emit : ℕ → ℕ → String → String
emit zero n out = out
emit (suc fuel) n out =
    let rest = emit fuel (n / 10) (String.◌∷◌ (digit (n % 10)) out) in
    if ltb n 10 then String.◌∷◌ (digit n) out else rest

unfoldable pub format_uint : ℕ → String
unfolding emit
format_uint n = emit (suc n) n ""

decimal_tests :
    (format_uint 0 ≡ "0")
    × (format_uint 1907 ≡ "1907")
    × (parse_uint "018" ≡ some 18)
    × (parse_uint "18446744073709551616" ≡ none)
unfolding format_uint emit parse_uint digits_value
decimal_tests = (refl, refl, refl, refl)

code-digit : (n : ℕ) → n < 10 → code (digit n) ≡ 48 + n
code-digit zero h = refl
code-digit (suc zero) h = refl
code-digit (suc (suc zero)) h = refl
code-digit (suc (suc (suc zero))) h = refl
code-digit (suc (suc (suc (suc zero)))) h = refl
code-digit (suc (suc (suc (suc (suc zero))))) h = refl
code-digit (suc (suc (suc (suc (suc (suc zero)))))) h = refl
code-digit (suc (suc (suc (suc (suc (suc (suc zero))))))) h = refl
code-digit (suc (suc (suc (suc (suc (suc (suc (suc zero)))))))) h = refl
code-digit (suc (suc (suc (suc (suc (suc (suc (suc (suc zero))))))))) h = refl
code-digit (suc (suc (suc (suc (suc (suc (suc (suc (suc (suc n)))))))))) h = absurd (omega arith)

digits_value-emit :
    (fuel n : ℕ) (out : String) → n < fuel → digits_value 0 (emit fuel n out) ≡ digits_value n out
unfolding digits_value emit
digits_value-emit zero n out h = absurd (omega arith)
digits_value-emit (suc fuel) n out h = ground (
  arith,
  code-digit n,
  code-digit (n % 10),
  digits_value-emit fuel (n / 10) (String.◌∷◌ (digit (n % 10)) out),
)

pub parse_uint-format_uint : (n : ℕ) → n < max_uint → parse_uint (format_uint n) ≡ some n
unfolding parse_uint format_uint digits_value
parse_uint-format_uint n h = ground (arith, digits_value-emit (suc n) n "")

emit_rest-is_number :
    (fuel n : ℕ) (out : String) → is_number out ≡ true → is_number (emit fuel n out) ≡ true
unfolding emit is_number all_digits
emit_rest-is_number zero n out h = h
emit_rest-is_number (suc fuel) n String.[] h = cc
emit_rest-is_number (suc fuel) n (String.◌∷◌ c s) h = ground (
  arith,
  code-digit n,
  code-digit (n % 10),
  emit_rest-is_number fuel (n / 10) (String.◌∷◌ (digit (n % 10)) (String.◌∷◌ c s)),
)

emit-is_number :
    (fuel n : ℕ) (out : String) → all_digits out ≡ true → is_number (emit (suc fuel) n out) ≡ true
unfolding emit all_digits is_number
emit-is_number fuel n out h = ground (
  arith,
  code-digit n,
  code-digit (n % 10),
  emit_rest-is_number fuel (n / 10) (String.◌∷◌ (digit (n % 10)) out),
)

pub is_number-format_uint : (n : ℕ) → is_number (format_uint n) ≡ true
unfolding format_uint all_digits
is_number-format_uint n = emit-is_number n n "" refl

pub lt-max_uint-of_parse_uint : (s : String) (n : ℕ) → parse_uint s ≡ some n → n < max_uint
unfolding parse_uint digits_value
lt-max_uint-of_parse_uint s n h = ground arith

pub all_digits-of_is_number : (s : String) → is_number s ≡ true → all_digits s ≡ true
unfolding is_number
all_digits-of_is_number String.[] h = cc
all_digits-of_is_number (String.◌∷◌ c s) h = h

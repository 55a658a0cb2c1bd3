-- ===== src/Go/Numbers.antt =====
-- Package strconv: `Itoa` and `Atoi` on 64-bit integers.
pub mod Laws
use gyzor.Prelude.{
  ℕ, zero, suc, ◌+◌, ◌-◌, ◌*◌, ◌/◌, ◌%◌, ◌^◌, ◌≡◌, refl, Bool, true, false, ◌||◌, List, [], ◌∷◌,
  Option, none, some, ltb, leb, ◌==◌, if◌then◌else◌, Bytes, codes,
}
use gyzor.Prelude.Int.{ℤ, pos, negsuc, max_int}

-- The digits of `n` in front of `out`, with fuel above `n`.
unfoldable pub digits_from : ℕ → ℕ → Bytes → Bytes
digits_from zero n out = out
digits_from (suc fuel) n out =
    let shown = (b'0' + n % 10) ∷ out in
    let rest = digits_from fuel (n / 10) shown in if n / 10 == 0 then shown else rest

unfoldable pub digits : ℕ → Bytes
unfolding digits_from
digits n = digits_from (suc n) n []

-- `strconv.Itoa`, `strconv.FormatInt(_, 10)` and `%d`
unfoldable pub itoa : ℤ → Bytes
unfolding digits
itoa (pos n) = digits n
itoa (negsuc n) = b'-' ∷ digits (suc n)

pub data NumError : Type 0 where
  syntax_error range_error : NumError

-- A value and an error: Go returns both.
pub record Parsed : Type 0 where
  pub value : ℤ
  pub failed : Option NumError

pub data Unsigned : Type 0 where
  number : ℕ → Unsigned
  bad : NumError → Unsigned

-- The loop of `ParseUint` in base 10.
unfoldable pub scan_digits : Bytes → ℕ → Unsigned
scan_digits [] n = Unsigned.number n
scan_digits (c ∷ s) n =
    let m = n * 10 + (c - b'0') in
    let rest = scan_digits s m in
    if ltb c b'0' || ltb b'9' c
    then Unsigned.bad NumError.syntax_error
    else if leb (2 ^ 64) m
    then Unsigned.bad NumError.range_error
    else rest

abbrev clamp : Bool → Parsed
clamp true = record { value = negsuc max_int; failed = some NumError.range_error }
clamp false = record { value = pos max_int; failed = some NumError.range_error }

abbrev signed : Bool → ℕ → ℤ
signed true zero = pos 0
signed true (suc n) = negsuc n
signed false n = pos n

abbrev bad_syntax : Parsed
bad_syntax = record { value = pos 0; failed = some NumError.syntax_error }

-- The checks of `ParseInt` behind `ParseUint`.
unfoldable pub with_sign : Bool → Unsigned → Parsed
with_sign neg (Unsigned.bad NumError.syntax_error) = bad_syntax
with_sign neg (Unsigned.bad NumError.range_error) = clamp neg
with_sign neg (Unsigned.number n) =
    if leb (if neg then 2 ^ 63 + 1 else 2 ^ 63) n
    then clamp neg
    else record { value = signed neg n; failed = none }

unfoldable pub parse_unsigned : Bool → Bytes → Parsed
unfolding scan_digits with_sign
parse_unsigned neg [] = bad_syntax
parse_unsigned neg (c ∷ s) = with_sign neg (scan_digits (c ∷ s) 0)

-- `strconv.Atoi`
unfoldable pub atoi : Bytes → Parsed
unfolding parse_unsigned
atoi [] = bad_syntax
atoi (c ∷ s) =
    if c == b'-'
    then parse_unsigned true s
    else if c == b'+'
    then parse_unsigned false s
    else parse_unsigned false (c ∷ s)

-- The number, where there is no error.
abbrev pub accepted : Parsed → Option ℤ
accepted p = elim (p.failed) [ none ↦ some p.value | some e ↦ none ]

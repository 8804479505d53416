-- ===== src/Common/Int.antt =====
-- Go's `int` as an unbounded integer, and `strconv.Atoi`, which keeps to 64 bits.
pub mod Digits
use Prim.Native.Nat.{ℕ, zero, suc, ◌+◌, ◌-◌, ◌*◌, ◌^◌, ◌/◌, ◌%◌}
use mathlib.Core.Bool.{Bool, true, false, ◌&&◌}
use mathlib.Core.List.{[], ◌∷◌}
use mathlib.Core.Option.{Option, none, some}
use matrix_runtime.Common.Tests.{ltb, leb, ◌==◌, if◌then◌else◌}
use matrix_runtime.Common.Strings.{Text}

-- `negsuc n` is -(n + 1).
pub data ℤ : Type 0 where
  pos : ℕ → ℤ
  negsuc : ℕ → ℤ

-- The value, or 0 below 0.
abbrev pub pos_part : ℤ → ℕ
pos_part (pos n) = n
pos_part (negsuc n) = 0

abbrev pub is_neg : ℤ → Bool
is_neg (pos n) = false
is_neg (negsuc n) = true

-- `n > 0`
abbrev pub is_positive : ℤ → Bool
is_positive (pos n) = ltb 0 n
is_positive (negsuc n) = false

-- `a < b`
abbrev pub lt_int : ℤ → ℤ → Bool
lt_int (pos a) (pos b) = ltb a b
lt_int (pos a) (negsuc b) = false
lt_int (negsuc a) (pos b) = true
lt_int (negsuc a) (negsuc b) = ltb b a

-- `a - b` of two numbers that are not negative
unfoldable pub minus : ℕ → ℕ → ℤ
minus a b = if leb b a then pos (a - b) else negsuc (b - a - 1)

abbrev pub add_int : ℕ → ℤ → ℤ
unfolding minus
add_int a (pos b) = pos (a + b)
add_int a (negsuc b) = minus a (suc b)

-- A quotient, rounded towards zero.
unfoldable pub quotient : ℤ → ℕ → ℤ
unfolding minus
quotient (pos a) b = pos (a / b)
quotient (negsuc a) b = minus 0 (suc a / b)

-- What 64 bits with a sign keep of a number.
unfoldable pub int64_of : ℕ → ℤ
int64_of n = let r = n % 2 ^ 64 in if ltb r (2 ^ 63) then pos r else negsuc (2 ^ 64 - r - 1)

-- The decimal digits of a text, on top of the digits read so far.
unfoldable pub read_digits : ℕ → Text → Option ℕ
read_digits n [] = some n
read_digits n (c ∷ s) =
    let rest = read_digits (n * 10 + (c - 48)) s in if leb 48 c && leb c 57 then rest else none

-- At least one digit.
unfoldable pub read_number : Text → Option ℕ
unfolding read_digits
read_number [] = none
read_number (c ∷ s) = read_digits 0 (c ∷ s)

abbrev below : ℕ → Option ℕ → Option ℤ
below bound none = none
below bound (some n) = if ltb n bound then some (pos n) else none

abbrev negated : Option ℕ → Option ℤ
negated none = none
negated (some zero) = some (pos 0)
negated (some (suc n)) = if ltb n (2 ^ 63) then some (negsuc n) else none

-- An optional sign and decimal digits, in the range of int64.
unfoldable pub atoi : Text → Option ℤ
unfolding read_number
atoi [] = none
atoi (c ∷ s) =
    if c == b'-'
    then negated (read_number s)
    else if c == b'+'
    then below (2 ^ 63) (read_number s)
    else below (2 ^ 63) (read_number (c ∷ s))

-- The decimal digits of a number in front of a text; fuel above the number is enough.
unfoldable pub write_digits : ℕ → ℕ → Text → Text
write_digits zero n acc = acc
write_digits (suc f) n acc =
    let rest = write_digits f (n / 10) ((48 + n % 10) ∷ acc) in
    if ltb n 10 then (48 + n) ∷ acc else rest

-- `strconv.Itoa`, for a number that is not negative
unfoldable pub itoa : ℕ → Text
unfolding write_digits
itoa n = write_digits (suc n) n []

-- `strconv.Itoa`
unfoldable pub itoa_int : ℤ → Text
unfolding itoa
itoa_int (pos n) = itoa n
itoa_int (negsuc n) = b'-' ∷ itoa (suc n)

-- ===== src/Common/Int/Digits.antt =====
-- Decimal digits that are written are read again, so that two numbers are written differently.
use Prim.Native.Nat.{ℕ, zero, suc, ◌+◌, ◌*◌, ◌/◌, ◌%◌, ◌<◌}
use mathlib.Core.Path.{◌≡◌, sym, ap, ◌∙◌}
use mathlib.Core.List.{[], ◌∷◌}
use mathlib.Core.Option.{some}
use native.Mathlib.Omega.{arith}
use matrix_runtime.Common.Tests.{some_inj}
use matrix_runtime.Common.Strings.{Text}
use matrix_runtime.Common.Int.{read_digits, write_digits, itoa}

read_digit :
    (m d : ℕ) (acc : Text) → d < 10 → read_digits m ((48 + d) ∷ acc) ≡ read_digits (m * 10 + d) acc
unfolding read_digits
read_digit m d acc h = ground arith

read_digits-write_digits :
    (f n : ℕ) (acc : Text) → n < f → read_digits 0 (write_digits f n acc) ≡ read_digits n acc
unfolding write_digits
read_digits-write_digits zero n acc h = absurd (omega arith)
read_digits-write_digits (suc f) n acc h = ground (
  arith,
  read_digit 0 n acc,
  read_digits-write_digits f (n / 10) ((48 + n % 10) ∷ acc),
  read_digit (n / 10) (n % 10) acc,
)

pub read_digits-itoa : (n : ℕ) → read_digits 0 (itoa n) ≡ some n
unfolding itoa read_digits
read_digits-itoa n = read_digits-write_digits (suc n) n [] (omega arith)

pub itoa_inj : (m n : ℕ) → itoa m ≡ itoa n → m ≡ n
itoa_inj m n h = some_inj (sym (read_digits-itoa m) ∙ ap (read_digits 0) h ∙ read_digits-itoa n)

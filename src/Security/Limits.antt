-- ===== src/Security/Limits.antt =====
-- internal/security/limits.go. Durations are in nanoseconds.
use matrix_runtime.Common.{
  ℕ, ◌*◌, ◌^◌, ◌≤◌, ◌≡◌, ◌||◌, ◌&&◌, not, Option, none, some, arith, if◌then◌else◌,
}
use matrix_runtime.Common.Int.{ℤ, pos, negsuc, pos_part, is_neg, is_positive, lt_int, int64_of}

abbrev pub second : ℕ
second = 10 ^ 9

pub data TtlError : Type 0 where
  negative exceeds_maximum : TtlError

abbrev pub effective_max : ℤ → ℤ
effective_max max = if is_positive max then max else pos 600

abbrev granted_seconds : ℤ → ℤ → ℤ
granted_seconds requested max =
    let max' = effective_max max in
    if not (is_positive requested) || lt_int max' requested then max' else requested

-- The product with the nanoseconds of a second is taken in 64 bits.
unfoldable pub clamp_ttl : ℤ → ℤ → ℤ
unfolding int64_of
clamp_ttl requested max = int64_of (pos_part (granted_seconds requested max) * second)

unfoldable pub check_ttl : ℤ → ℤ → Option TtlError
check_ttl requested max =
    if is_neg requested
    then some negative
    else if is_positive max && lt_int max requested
    then some exceeds_maximum
    else none

-- The seconds of the longest duration.
abbrev pub most_seconds : ℕ
most_seconds = 9223372036

-- A product that fits in 63 bits is kept.
int64_of-small : (n : ℕ) → n ≤ most_seconds → int64_of (n * second) ≡ pos (n * second)
unfolding int64_of
int64_of-small n h = ground (arith, h)

granted_seconds_bounds :
    (requested max : ℤ)
    → (1 ≤ pos_part (granted_seconds requested max))
      × (pos_part (granted_seconds requested max) ≤ pos_part (effective_max max))
granted_seconds_bounds (pos r) (pos m) = ground arith
granted_seconds_bounds (pos r) (negsuc m) = ground arith
granted_seconds_bounds (negsuc r) (pos m) = ground arith
granted_seconds_bounds (negsuc r) (negsuc m) = ground arith

-- As long as the maximum is at most the longest duration, the clamped duration is at least one second
-- and at most the maximum, or ten minutes where no positive maximum is given.
pub clamp_ttl_bounds :
    (requested max : ℤ)
    → pos_part (effective_max max) ≤ most_seconds
    → (ttl : ℕ) × (clamp_ttl requested max ≡ pos ttl)
      × (1 * second ≤ ttl)
      × (ttl ≤ pos_part (effective_max max) * second)
unfolding clamp_ttl
clamp_ttl_bounds requested max h =
    let n = pos_part (granted_seconds requested max) in
    let (least, most) = granted_seconds_bounds requested max in
    (
      n * second,
      int64_of-small n (omega (arith, h, most)),
      omega (arith, least),
      omega (arith, most),
    )

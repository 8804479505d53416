-- ===== src/Auth/Base64/RoundTrip.antt =====
-- What is encoded is decoded again.
use matrix_runtime.Common.{
  ℕ, ◌+◌, ◌*◌, ◌/◌, ◌%◌, ◌<◌, ◌≡◌, refl, ap, ◌∙◌, false, not, ◌||◌, [], ◌∷◌, some, keep, ◌==◌, All,
  arith, Text,
}
use matrix_runtime.Auth.Hex.{Bytes, IsBytes}
use matrix_runtime.Auth.Base64.{std, char64, value64, encode64, decode_groups, decode64}

value64-char64 : (n : ℕ) → n < 64 → value64 std (char64 std n) ≡ some n
unfolding value64 char64
value64-char64 n h = ground arith

-- A character of a text, but no filling and no end of a line.
abbrev Plain : ℕ → Type 0
Plain c = ((c == b'=') ≡ false) × ((c == 10 || c == 13) ≡ false)

char64-Plain : (n : ℕ) → n < 64 → Plain (char64 std n)
unfolding char64
char64-Plain n h = ground arith

decode_groups-encode64 : (bs : Bytes) → IsBytes bs → decode_groups std (encode64 bs) ≡ some bs
unfolding decode_groups encode64
decode_groups-encode64 [] h = refl
decode_groups-encode64 (a ∷ []) h =
    ground (arith, value64-char64 (a / 4), value64-char64 (a % 4 * 16))
decode_groups-encode64 (a ∷ b ∷ []) h = ground (
  arith,
  value64-char64 (a / 4),
  value64-char64 (a % 4 * 16 + b / 16),
  value64-char64 (b % 16 * 4),
  char64-Plain (b % 16 * 4),
)
decode_groups-encode64 (a ∷ b ∷ c ∷ bs) h = ground (
  arith,
  value64-char64 (a / 4),
  value64-char64 (a % 4 * 16 + b / 16),
  value64-char64 (b % 16 * 4 + c / 64),
  value64-char64 (c % 64),
  char64-Plain (c % 64),
  decode_groups-encode64 bs h.1.1.1,
)

-- No end of a line.
abbrev IsInline : ℕ → Type 0
IsInline c = (c == 10 || c == 13) ≡ false

keep_inline : (s : Text) → All IsInline s → keep (λ c. not (c == 10 || c == 13)) s ≡ s
keep_inline [] h = refl
keep_inline (c ∷ s) h = ground (arith, h.0, keep_inline s h.1)

char64-IsInline : (n : ℕ) → n < 64 → IsInline (char64 std n)
char64-IsInline n h = (char64-Plain n h).1

encode64-IsInline : (bs : Bytes) → IsBytes bs → All IsInline (encode64 bs)
unfolding encode64
encode64-IsInline [] h = tt
encode64-IsInline (a ∷ []) h = (
  char64-IsInline (a / 4) (ground (arith, h.0)),
  (char64-IsInline (a % 4 * 16) (ground arith), (refl, (refl, tt))),
)
encode64-IsInline (a ∷ b ∷ []) h = (
  char64-IsInline (a / 4) (ground (arith, h.0)),
  (
    char64-IsInline (a % 4 * 16 + b / 16) (ground (arith, h.1.0)),
    (char64-IsInline (b % 16 * 4) (ground arith), (refl, tt)),
  ),
)
encode64-IsInline (a ∷ b ∷ c ∷ bs) h = (
  char64-IsInline (a / 4) (ground (arith, h.0)),
  (
    char64-IsInline (a % 4 * 16 + b / 16) (ground (arith, h.1.0)),
    (
      char64-IsInline (b % 16 * 4 + c / 64) (ground (arith, h.1.1.0)),
      (char64-IsInline (c % 64) (ground arith), encode64-IsInline bs h.1.1.1),
    ),
  ),
)

pub decode64-encode64 : (bs : Bytes) → IsBytes bs → decode64 std (encode64 bs) ≡ some bs
unfolding decode64
decode64-encode64 bs h =
    ap (decode_groups std) (keep_inline (encode64 bs) (encode64-IsInline bs h))
    ∙ decode_groups-encode64 bs h

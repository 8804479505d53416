-- ===== src/Auth/Base64.antt =====
-- `encoding/base64`, in the four encodings that internal/auth/secret.go tries.
pub mod RoundTrip
use matrix_runtime.Common.{
  ℕ, ◌+◌, ◌-◌, ◌*◌, ◌/◌, ◌%◌, Bool, true, false, not, ◌&&◌, ◌||◌, List, [], ◌∷◌, Option, none, some,
  ltb, leb, ◌==◌, keep, if◌then◌else◌, Text,
}
use matrix_runtime.Common.Strings.{is_empty}
use matrix_runtime.Auth.Hex.{Bytes}

-- The two characters after the letters and digits, and whether the text is filled up with `=`.
pub record Encoding : Type 0 where
  pub plus : ℕ
  pub slash : ℕ
  pub padded : Bool

abbrev pub std : Encoding
std = record { plus = b'+'; slash = b'/'; padded = true }

abbrev pub raw_std : Encoding
raw_std = record { plus = b'+'; slash = b'/'; padded = false }

abbrev pub url : Encoding
url = record { plus = b'-'; slash = b'_'; padded = true }

abbrev pub raw_url : Encoding
raw_url = record { plus = b'-'; slash = b'_'; padded = false }

unfoldable pub char64 : Encoding → ℕ → ℕ
char64 e n =
    if ltb n 26
    then 65 + n
    else if ltb n 52
    then 71 + n
    else if ltb n 62
    then n - 4
    else if n == 62
    then e.plus
    else e.slash

unfoldable pub value64 : Encoding → ℕ → Option ℕ
value64 e c =
    if c == e.plus
    then some 62
    else if c == e.slash
    then some 63
    else if leb 65 c && leb c 90
    then some (c - 65)
    else if leb 97 c && leb c 122
    then some (c - 71)
    else if leb 48 c && leb c 57
    then some (c + 4)
    else none

-- Three bytes in four characters.
abbrev pub three_bytes : Encoding → ℕ → ℕ → ℕ → Text → Text
three_bytes e a b c rest =
    char64 e (a / 4)
    ∷ char64 e (a % 4 * 16 + b / 16)
    ∷ char64 e (b % 16 * 4 + c / 64)
    ∷ char64 e (c % 64)
    ∷ rest

-- EncodeToString of the standard encoding.
unfoldable pub encode64 : Bytes → Text
unfolding char64
encode64 [] = []
encode64 (a ∷ []) = char64 std (a / 4) ∷ char64 std (a % 4 * 16) ∷ b'=' ∷ b'=' ∷ []
encode64 (a ∷ b ∷ []) =
    char64 std (a / 4) ∷ char64 std (a % 4 * 16 + b / 16) ∷ char64 std (b % 16 * 4) ∷ b'=' ∷ []
encode64 (a ∷ b ∷ c ∷ bs) = three_bytes std a b c (encode64 bs)

abbrev pub read_two : Option ℕ → Option ℕ → Option Bytes
read_two (some p) (some q) = some ((p * 4 + q / 16) ∷ [])
read_two none q = none
read_two (some p) none = none

abbrev pub read_three : Option ℕ → Option ℕ → Option ℕ → Option Bytes
read_three (some p) (some q) (some r) = some ((p * 4 + q / 16) ∷ (q % 16 * 16 + r / 4) ∷ [])
read_three none q r = none
read_three (some p) none r = none
read_three (some p) (some q) none = none

abbrev pub read_four : Option ℕ → Option ℕ → Option ℕ → Option ℕ → Option Bytes → Option Bytes
read_four (some p) (some q) (some r) (some s) (some bs) =
    some ((p * 4 + q / 16) ∷ (q % 16 * 16 + r / 4) ∷ (r % 4 * 64 + s) ∷ bs)
read_four none q r s bs = none
read_four (some p) none r s bs = none
read_four (some p) (some q) none s bs = none
read_four (some p) (some q) (some r) none bs = none
read_four (some p) (some q) (some r) (some s) none = none

-- Groups of four characters; only the last may be shorter, or filled up where the encoding does that. Bits
-- after the last byte are not looked at.
unfoldable pub decode_groups : Encoding → Text → Option Bytes
unfolding value64
decode_groups e [] = some []
decode_groups e (a ∷ []) = none
decode_groups e (a ∷ b ∷ []) = if e.padded then none else read_two (value64 e a) (value64 e b)
decode_groups e (a ∷ b ∷ c ∷ []) =
    if e.padded then none else read_three (value64 e a) (value64 e b) (value64 e c)
decode_groups e (a ∷ b ∷ c ∷ d ∷ s) =
    let rest = decode_groups e s in
    if e.padded && d == b'=' && is_empty s
    then (if c == b'='
        then read_two (value64 e a) (value64 e b)
        else read_three (value64 e a) (value64 e b) (value64 e c))
    else read_four (value64 e a) (value64 e b) (value64 e c) (value64 e d) rest

-- DecodeString, which passes over the ends of lines.
unfoldable pub decode64 : Encoding → Text → Option Bytes
unfolding decode_groups
decode64 e s = decode_groups e (keep (λ c. not (c == 10 || c == 13)) s)

-- ===== src/Auth/Password.antt =====
-- internal/auth/password.go: PBKDF2 and the encoded form of a password's hash. HMAC-SHA256, the random
-- salt and SHA-256 are the package's calls of Go's library, and parameters here.
pub mod RoundTrip
use matrix_runtime.Common.{
  ℕ, zero, suc, ◌+◌, ◌-◌, ◌*◌, ◌/◌, ◌%◌, ◌^◌, Bool, true, false, not, ◌&&◌, ◌||◌, List, [], ◌∷◌,
  ◌++◌, Option, none, some, ltb, ◌==◌, if◌then◌else◌, length, take, Text, codes,
}
use matrix_runtime.Common.Strings.{eq_text, split}
use matrix_runtime.Common.Int.{ℤ, pos, negsuc, is_positive, pos_part, atoi, itoa}
use matrix_runtime.Auth.Hex.{Bytes, utf8, encode, decode}

abbrev pub iterations : ℕ
iterations = 120000

abbrev pub key_len : ℕ
key_len = 32

-- The exclusive or of the low k bits.
unfoldable pub xor_bits : ℕ → ℕ → ℕ → ℕ
xor_bits zero a b = 0
xor_bits (suc k) a b = (a + b) % 2 + 2 * xor_bits k (a / 2) (b / 2)

unfoldable pub xor_bytes : Bytes → Bytes → Bytes
xor_bytes [] us = []
xor_bytes (t ∷ ts) [] = t ∷ ts
xor_bytes (t ∷ ts) (u ∷ us) = xor_bits 8 t u ∷ xor_bytes ts us

-- The number of a block, in four bytes.
abbrev be32 : ℕ → Bytes
be32 i = (i / 16777216) % 256 ∷ (i / 65536) % 256 ∷ (i / 256) % 256 ∷ i % 256 ∷ []

module _ (hmac : Bytes → Bytes → Bytes) where
  -- The remaining rounds of a block: u is hashed again and added to t.
  unfoldable pub rounds : ℕ → Bytes → Bytes → Bytes → Bytes
  unfolding xor_bytes
  rounds zero password u t = t
  rounds (suc n) password u t = let u' = hmac password u in rounds n password u' (xor_bytes t u')

  unfoldable pub block : ℕ → Bytes → Bytes → ℕ → Bytes
  unfolding rounds
  block iter password salt i =
      let u = hmac password (salt ++ be32 i) in rounds (iter - 1) password u u

  -- The blocks i, i + 1, ..., n of them.
  unfoldable pub blocks : ℕ → ℕ → Bytes → Bytes → ℕ → Bytes
  unfolding block
  blocks zero iter password salt i = []
  blocks (suc n) iter password salt i =
      block iter password salt i ++ blocks n iter password salt (suc i)

  unfoldable pub pbkdf2 : Bytes → Bytes → ℕ → ℕ → Bytes
  unfolding blocks
  pbkdf2 password salt iter len = take len (blocks ((len + 31) / 32) iter password salt 1)

  -- The salt is what the random source gives.
  unfoldable pub hash_password : Bytes → Text → Text
  unfolding pbkdf2 encode itoa
  hash_password salt password =
      codes "pbkdf2$"
      ++ itoa iterations
      ++ codes "$"
      ++ encode salt
      ++ codes "$"
      ++ encode (pbkdf2 (utf8 password) salt iterations key_len)

  abbrev pub compare_keys : Text → Option ℤ → Option Bytes → Option Bytes → Bool
  compare_keys password (some iter) (some salt) (some want) =
      is_positive iter && eq_text (pbkdf2 (utf8 password) salt (pos_part iter) (length want)) want
  compare_keys password none salt want = false
  compare_keys password (some iter) none want = false
  compare_keys password (some iter) (some salt) none = false

  abbrev pub verify_parts : Text → List Text → Bool
  verify_parts password (scheme ∷ iter ∷ salt ∷ key ∷ []) =
      eq_text scheme (codes "pbkdf2")
      && compare_keys password (atoi iter) (decode salt) (decode key)
  verify_parts password [] = false
  verify_parts password (a ∷ []) = false
  verify_parts password (a ∷ b ∷ []) = false
  verify_parts password (a ∷ b ∷ c ∷ []) = false
  verify_parts password (a ∷ b ∷ c ∷ d ∷ e ∷ rest) = false

  unfoldable pub verify_password : Text → Text → Bool
  unfolding split
  verify_password password encoded = verify_parts password (split b'$' encoded)

-- The digest of a token, in hexadecimal.
unfoldable pub fast_hash : (Bytes → Bytes) → Text → Text
unfolding encode utf8
fast_hash sha256 s = encode (sha256 (utf8 s))

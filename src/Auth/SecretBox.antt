-- ===== src/Auth/SecretBox.antt =====
-- internal/auth/secret.go: the key of the box of secrets, and the encryption of a secret. AES-GCM, SHA-256
-- and the random bytes are parameters. A secret is its bytes.
pub mod Laws
use matrix_runtime.Common.{
  ℕ, ◌+◌, ◌-◌, Bool, true, false, List, [], ◌∷◌, ◌++◌, Option, none, some, length, take, drop, ltb,
  leb, ◌==◌, if◌then◌else◌, Text, codes,
}
use matrix_runtime.Common.Strings.{is_empty, trim_space}
use matrix_runtime.Auth.Hex.{Bytes, encode, decode, utf8}
use matrix_runtime.Auth.Base64.{Encoding, std, raw_std, url, raw_url, encode64, decode64}

-- A key of 32 bytes, if that is what was read.
abbrev pub of_size : Option Bytes → Option Bytes
of_size none = none
of_size (some b) = if length b == 32 then some b else none

abbrev pub first_key : Option Bytes → Option Bytes → Option Bytes
first_key none o = o
first_key (some b) o = some b

-- The exact keys that MATRIXCLOUD_SECRET_KEY can hold: hexadecimal digits, then each encoding in turn.
unfoldable pub exact_key : Text → Option Bytes
unfolding decode decode64
exact_key env = first_key (of_size (decode env)) (
    first_key (of_size (decode64 std env)) (
      first_key (of_size (decode64 raw_std env))
        (first_key (of_size (decode64 url env)) (of_size (decode64 raw_url env)))))

abbrev pub or_digest : Bytes → Option Bytes → Bytes
or_digest digest none = digest
or_digest digest (some key) = key

-- The file secret.key: its text, or none where it cannot be read.
abbrev pub file_key : Option Text → Option Bytes
file_key none = none
file_key (some text) = of_size (decode (trim_space text))

-- The key, with the file after it. A random source that fails gives none; `writable` says whether the
-- directory and the file can be written, an error of which is ignored.
abbrev pub stored_or_new :
    Option Bytes → Option Bytes → Bool → Option Text → Option Bytes × Option Text
stored_or_new (some key) random writable file = (some key, file)
stored_or_new none none writable file = (none, file)
stored_or_new none (some key) writable file =
    (some key, if writable then some (encode key) else file)

unfoldable pub load_or_create_key :
    (Bytes → Bytes) → Text → Option Bytes → Bool → Option Text → Option Bytes × Option Text
unfolding exact_key encode utf8
load_or_create_key sha256 env random writable file =
    if is_empty (trim_space env)
    then stored_or_new (file_key file) random writable file
    else (some (or_digest (sha256 (utf8 (trim_space env))) (exact_key (trim_space env))), file)

pub data Opened : Type 0 where
  ok : Bytes → Opened
  bad_encoding too_short not_authentic : Opened

-- AES-256-GCM with its nonces of twelve bytes: `seal key nonce text` and `open key nonce cipher`.
pub record Aead : Type 0 where
  pub seal : Bytes → Bytes → Bytes → Bytes
  pub unseal : Bytes → Bytes → Bytes → Option Bytes

abbrev pub nonce_size : ℕ
nonce_size = 12

-- None where the random source fails.
unfoldable pub encrypt : Aead → Bytes → Option Bytes → Bytes → Option Text
unfolding encode64
encrypt aead key none plaintext = none
encrypt aead key (some nonce) plaintext = some (encode64 (nonce ++ aead.seal key nonce plaintext))

abbrev pub unsealed : Option Bytes → Opened
unsealed none = not_authentic
unsealed (some text) = ok text

abbrev pub open_raw : Aead → Bytes → Option Bytes → Opened
open_raw aead key none = bad_encoding
open_raw aead key (some raw) =
    if ltb (length raw) nonce_size
    then too_short
    else unsealed (aead.unseal key (take nonce_size raw) (drop nonce_size raw))

unfoldable pub decrypt : Aead → Bytes → Text → Opened
unfolding decode64
decrypt aead key enc = open_raw aead key (decode64 std enc)

-- Four dots, and the last four bytes of a longer secret.
unfoldable pub hint : Bytes → Bytes
unfolding utf8
hint secret =
    if leb (length secret) 4
    then utf8 (codes "••••")
    else utf8 (codes "••••") ++ drop (length secret - 4) secret

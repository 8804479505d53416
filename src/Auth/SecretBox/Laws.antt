-- ===== src/Auth/SecretBox/Laws.antt =====
-- The key is always of the size that AES-256 needs, it stays the same, and what is encrypted is decrypted.
use matrix_runtime.Common.{
  ℕ, zero, suc, ◌<◌, ◌/◌, ◌%◌, ◌≡◌, refl, sym, ap, ◌∙◌, Bool, true, false, [], ◌∷◌, ◌++◌, Option,
  none, some, length, length-append, take, drop, ◌==◌, if◌then◌else◌, if-intro, arith, Text,
}
use matrix_runtime.Common.Strings.{is_empty, is_space, trim_left, trim_right, trim_space}
use matrix_runtime.Auth.Hex.{Bytes, IsBytes, encode, decode, decode-encode, hex_digit, utf8}
use matrix_runtime.Auth.Base64.{std, raw_std, url, raw_url, encode64, decode64}
use matrix_runtime.Auth.Base64.RoundTrip.{decode64-encode64}
use matrix_runtime.Auth.SecretBox.{
  of_size, first_key, exact_key, or_digest, file_key, stored_or_new, load_or_create_key, ok, Aead,
  nonce_size, encrypt, open_raw, decrypt,
}

-- 32 bytes, or nothing.
abbrev Is32 : Option Bytes → Type 0
Is32 none = Unit
Is32 (some b) = length b ≡ 32

of_size-Is32 : (o : Option Bytes) → Is32 (of_size o)
of_size-Is32 none = tt
of_size-Is32 (some b) = if-intro Is32 (length b == 32) (λ e. ground arith) (λ e. tt)

first_key-Is32 : (o p : Option Bytes) → Is32 o → Is32 p → Is32 (first_key o p)
first_key-Is32 none p h g = g
first_key-Is32 (some b) p h g = h

file_key-Is32 : (file : Option Text) → Is32 (file_key file)
file_key-Is32 none = tt
file_key-Is32 (some text) = of_size-Is32 (decode (trim_space text))

exact_key-Is32 : (env : Text) → Is32 (exact_key env)
unfolding exact_key
exact_key-Is32 env =
    first_key-Is32 hex (first_key s (first_key r (first_key u v))) (of_size-Is32 (decode env)) (
      first_key-Is32 s (first_key r (first_key u v)) (of_size-Is32 (decode64 std env)) (
        first_key-Is32 r (first_key u v) (of_size-Is32 (decode64 raw_std env)) (
          first_key-Is32 u v (of_size-Is32 (decode64 url env))
            (of_size-Is32 (decode64 raw_url env)))))
  where
    hex : Option Bytes
    hex = of_size (decode env)

    s : Option Bytes
    s = of_size (decode64 std env)

    r : Option Bytes
    r = of_size (decode64 raw_std env)

    u : Option Bytes
    u = of_size (decode64 url env)

    v : Option Bytes
    v = of_size (decode64 raw_url env)

-- A key that is loaded has 32 bytes, whatever the environment and the file hold.
pub load_or_create_key_size :
    (sha256 : Bytes → Bytes) (env : Text) (random : Bytes) (writable : Bool) (file : Option Text)
    → ((m : Bytes) → length (sha256 m) ≡ 32)
    → length random ≡ 32
    → (key : Bytes) × ((load_or_create_key sha256 env (some random) writable file).0 ≡ some key)
      × (length key ≡ 32)
unfolding load_or_create_key
load_or_create_key_size sha256 env random writable file digest size =
    if-intro IsLoaded (is_empty (trim_space env))
      (λ e. from_file (file_key file) (file_key-Is32 file))
      (λ e. from_env (exact_key (trim_space env)) (exact_key-Is32 (trim_space env)))
  where
    IsLoaded : Option Bytes × Option Text → Type 0
    IsLoaded x = (key : Bytes) × (x.0 ≡ some key) × (length key ≡ 32)

    from_file : (o : Option Bytes) → Is32 o → IsLoaded (stored_or_new o (some random) writable file)
    from_file none h = (random, refl, size)
    from_file (some key) h = (key, refl, h)

    from_env :
        (o : Option Bytes)
        → Is32 o
        → IsLoaded (some (or_digest (sha256 (utf8 (trim_space env))) o), file)
    from_env none h = (sha256 (utf8 (trim_space env)), refl, digest (utf8 (trim_space env)))
    from_env (some key) h = (key, refl, h)

-- A hexadecimal text has no white space.
hex_digit-is_space : (n : ℕ) → n < 16 → is_space (hex_digit n) ≡ false
unfolding is_space
hex_digit-is_space n h = ground arith

trim_right-encode : (bs : Bytes) → IsBytes bs → trim_right (encode bs) ≡ encode bs
unfolding trim_right encode
trim_right-encode [] h = refl
trim_right-encode (b ∷ bs) h =
    ground
      (arith, hex_digit-is_space (b / 16), hex_digit-is_space (b % 16), trim_right-encode bs h.1)

trim_space-encode : (bs : Bytes) → IsBytes bs → trim_space (encode bs) ≡ encode bs
unfolding trim_space trim_left encode
trim_space-encode [] h = trim_right-encode [] tt
trim_space-encode (b ∷ bs) h =
    ground (arith, hex_digit-is_space (b / 16), trim_right-encode (b ∷ bs) h)

file_key-encode :
    (key : Bytes) → length key ≡ 32 → IsBytes key → file_key (some (encode key)) ≡ some key
file_key-encode key size bytes =
    ap (λ t. of_size (decode t)) (trim_space-encode key bytes)
    ∙ ap of_size (decode-encode key bytes)
    ∙ ground (arith, size)

-- Where the directory can be written the key that is loaded once is loaded ever after, whatever the random
-- source gives then.
pub load_or_create_key_stable :
    (sha256 : Bytes → Bytes) (env : Text) (random key : Bytes) (again : Option Bytes)
    (writable : Bool) (file file' : Option Text)
    → length random ≡ 32
    → IsBytes random
    → load_or_create_key sha256 env (some random) true file ≡ (some key, file')
    → load_or_create_key sha256 env again writable file' ≡ (some key, file')
unfolding load_or_create_key
load_or_create_key_stable sha256 env random key again writable file file' size bytes =
    kept_choice (is_empty (trim_space env))
      (or_digest (sha256 (utf8 (trim_space env))) (exact_key (trim_space env)))
  where
    loaded :
        file_key file' ≡ some key
        → stored_or_new (file_key file') again writable file' ≡ (some key, file')
    loaded e = ap (λ o. stored_or_new o again writable file') e

    kept_file :
        (o : Option Bytes)
        → file_key file ≡ o
        → stored_or_new o (some random) true file ≡ (some key, file')
        → file_key file' ≡ some key
    kept_file (some k) e h = ap file_key (sym (ap (λ x. x.1) h)) ∙ e ∙ ap (λ x. x.0) h
    kept_file none e h =
        ap file_key (sym (ap (λ x. x.1) h)) ∙ file_key-encode random size bytes ∙ ap (λ x. x.0) h

    kept_choice :
        (b : Bool) (k : Bytes)
        → (if b then stored_or_new (file_key file) (some random) true file else (some k, file))
          ≡ (some key, file')
        → (if b then stored_or_new (file_key file') again writable file' else (some k, file'))
          ≡ (some key, file')
    kept_choice true k h = loaded (kept_file (file_key file) refl h)
    kept_choice false k h = ap (λ x. (x.0, file')) h

take-append : (s t : Bytes) (n : ℕ) → length s ≡ n → take n (s ++ t) ≡ s
take-append [] t zero h = refl
take-append [] t (suc n) h = absurd (ground arith)
take-append (c ∷ s) t zero h = absurd (ground arith)
take-append (c ∷ s) t (suc n) h = ap (λ x. c ∷ x) (take-append s t n (ground arith))

drop-append : (s t : Bytes) (n : ℕ) → length s ≡ n → drop n (s ++ t) ≡ t
drop-append [] t zero h = refl
drop-append [] t (suc n) h = absurd (ground arith)
drop-append (c ∷ s) t zero h = absurd (ground arith)
drop-append (c ∷ s) t (suc n) h = drop-append s t n (ground arith)

-- What is encrypted is decrypted with the same key, where the cipher is authentic.
pub decrypt-encrypt :
    (aead : Aead) (key nonce plaintext : Bytes)
    → aead.unseal key nonce (aead.seal key nonce plaintext) ≡ some plaintext
    → length nonce ≡ nonce_size
    → IsBytes (nonce ++ aead.seal key nonce plaintext)
    → (enc : Text) × (encrypt aead key (some nonce) plaintext ≡ some enc)
      × (decrypt aead key enc ≡ ok plaintext)
unfolding encrypt decrypt
decrypt-encrypt aead key nonce plaintext inverse size bytes = (
  encode64 (nonce ++ aead.seal key nonce plaintext),
  refl,
  ap (open_raw aead key) (decode64-encode64 (nonce ++ aead.seal key nonce plaintext) bytes)
      ∙ opened,
)
  where
    cipher : Bytes
    cipher = aead.seal key nonce plaintext

    opened : open_raw aead key (some (nonce ++ cipher)) ≡ ok plaintext
    opened = ground (
      arith,
      length-append nonce cipher,
      take-append nonce cipher nonce_size size,
      drop-append nonce cipher nonce_size size,
      inverse,
    )

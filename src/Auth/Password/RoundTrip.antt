-- ===== src/Auth/Password/RoundTrip.antt =====
-- A hash that is read again decides on the derived key.
use matrix_runtime.Common.{
  ℕ, zero, suc, ◌-◌, ◌/◌, ◌%◌, ◌^◌, ◌<◌, ◌≡◌, ◌↔◌, refl, sym, ap, ◌∙◌, subst, true, false, [], ◌∷◌,
  ◌++◌, append_assoc, some, arith, All, length, take, ◌==◌, Text, codes,
}
use matrix_runtime.Common.Strings.{eq_text, eq_text_iff, split}
use matrix_runtime.Common.Int.{pos, atoi, itoa, read_number, read_digits, write_digits}
use matrix_runtime.Auth.Hex.{Bytes, IsBytes, utf8, encode, decode, hex_digit, decode-encode}
use matrix_runtime.Auth.Password.{
  iterations, key_len, xor_bits, xor_bytes, rounds, block, blocks, pbkdf2, hash_password,
  compare_keys, verify_parts, verify_password,
}

-- No character of a text is the separator.
abbrev Lacks : ℕ → Text → Type 0
Lacks sep s = All (λ c. (c == sep) ≡ false) s

split-append_sep : (sep : ℕ) (s t : Text) → Lacks sep s → split sep (s ++ sep ∷ t) ≡ s ∷ split sep t
unfolding split
split-append_sep sep [] t h = ground arith
split-append_sep sep (c ∷ s) t h = ground (arith, split-append_sep sep s t h.1)

split-whole : (sep : ℕ) (s : Text) → Lacks sep s → split sep s ≡ s ∷ []
unfolding split
split-whole sep [] h = refl
split-whole sep (c ∷ s) h = ground (arith, split-whole sep s h.1)

hex_digit_lacks : (n : ℕ) → n < 16 → (hex_digit n == b'$') ≡ false
hex_digit_lacks n h = ground arith

encode-Lacks : (bs : Bytes) → IsBytes bs → Lacks b'$' (encode bs)
unfolding encode
encode-Lacks [] h = tt
encode-Lacks (b ∷ bs) h = (
  hex_digit_lacks (b / 16) (ground (arith, h.0)),
  (hex_digit_lacks (b % 16) (ground arith), encode-Lacks bs h.1),
)

xor_bits_bound : (k a b : ℕ) → xor_bits k a b < 2 ^ k
unfolding xor_bits
xor_bits_bound zero a b = ground arith
xor_bits_bound (suc k) a b = ground (arith, xor_bits_bound k (a / 2) (b / 2))

xor_bytes-IsBytes : (ts us : Bytes) → IsBytes ts → IsBytes (xor_bytes ts us)
unfolding xor_bytes
xor_bytes-IsBytes [] us h = tt
xor_bytes-IsBytes (t ∷ ts) [] h = h
xor_bytes-IsBytes (t ∷ ts) (u ∷ us) h = (xor_bits_bound 8 t u, xor_bytes-IsBytes ts us h.1)

length-xor_bytes : (ts us : Bytes) → length (xor_bytes ts us) ≡ length ts
unfolding xor_bytes
length-xor_bytes [] us = refl
length-xor_bytes (t ∷ ts) [] = refl
length-xor_bytes (t ∷ ts) (u ∷ us) = ap suc (length-xor_bytes ts us)

-- The four parts of a formatted hash.
split-formatted :
    (salt key : Bytes)
    → IsBytes salt
    → IsBytes key
    → split b'$'
        (codes "pbkdf2$" ++ itoa iterations ++ codes "$" ++ encode salt ++ codes "$" ++ encode key)
      ≡ codes "pbkdf2" ∷ codes "120000" ∷ encode salt ∷ encode key ∷ []
unfolding itoa write_digits
split-formatted salt key hs hk =
    split-append_sep b'$' (codes "pbkdf2") _ (ground arith)
    ∙ ap (λ x. codes "pbkdf2" ∷ x)
        (split-append_sep b'$' (codes "120000") _ (ground arith)
          ∙ ap (λ x. codes "120000" ∷ x)
              (ap (split b'$') (append_assoc (encode salt) (codes "$") (encode key)) ∙ last))
  where
    last : split b'$' (encode salt ++ b'$' ∷ encode key) ≡ encode salt ∷ encode key ∷ []
    last =
        split-append_sep b'$' (encode salt) (encode key) (encode-Lacks salt hs)
        ∙ ap (λ x. encode salt ∷ x) (split-whole b'$' (encode key) (encode-Lacks key hk))

-- 32 bytes.
abbrev pub IsKey : Bytes → Type 0
IsKey bs = (length bs ≡ 32) × IsBytes bs

take-length_append : (bs : Bytes) (n : ℕ) → length bs ≡ n → take n (bs ++ []) ≡ bs
take-length_append [] zero h = refl
take-length_append [] (suc n) h = refl
take-length_append (b ∷ bs) zero h = absurd (ground arith)
take-length_append (b ∷ bs) (suc n) h = ap (λ x. b ∷ x) (take-length_append bs n (ground arith))

module _ (hmac : Bytes → Bytes → Bytes) (mac : (k m : Bytes) → IsKey (hmac k m)) where
  rounds-IsKey : (n : ℕ) (p u t : Bytes) → IsKey t → IsKey (rounds hmac n p u t)
  unfolding rounds
  rounds-IsKey zero p u t h = h
  rounds-IsKey (suc n) p u t h =
      rounds-IsKey n p (hmac p u) (xor_bytes t (hmac p u))
        (length-xor_bytes t (hmac p u) ∙ h.0, xor_bytes-IsBytes t (hmac p u) h.1)

  -- The key of 32 bytes is one block.
  pbkdf2-IsKey : (p salt : Bytes) (iter : ℕ) → IsKey (pbkdf2 hmac p salt iter key_len)
  unfolding pbkdf2 blocks block
  pbkdf2-IsKey p salt iter = subst IsKey (sym (take-length_append _ 32 whole.0)) whole
    where
      first : Bytes
      first = salt ++ 0 ∷ 0 ∷ 0 ∷ 1 ∷ []

      whole : IsKey (block hmac iter p salt 1)
      whole = rounds-IsKey (iter - 1) p (hmac p first) (hmac p first) (mac p first)

  compare_keys-stored :
      (q : Text) (iter : ℕ) (salt want : Bytes)
      → 0 < iter
      → IsBytes salt
      → IsKey want
      → compare_keys hmac q (some (pos iter)) (decode (encode salt)) (decode (encode want))
        ≡ eq_text (pbkdf2 hmac (utf8 q) salt iter key_len) want
  compare_keys-stored q iter salt want positive hs hw =
      ground (arith, decode-encode salt hs, decode-encode want hw.1)

  verify_parts-stored :
      (q s k : Text)
      → verify_parts hmac q (codes "pbkdf2" ∷ codes "120000" ∷ s ∷ k ∷ [])
        ≡ compare_keys hmac q (some (pos iterations)) (decode s) (decode k)
  unfolding eq_text atoi read_number read_digits
  verify_parts-stored q s k = refl

  -- A text that verifies against the hash of a password is one with the same derived key.
  pub verify-hash_iff :
      (salt : Bytes) (p q : Text)
      → IsBytes salt
      → (verify_password hmac q (hash_password hmac salt p) ≡ true) ↔ (
          pbkdf2 hmac (utf8 q) salt iterations key_len
          ≡ pbkdf2 hmac (utf8 p) salt iterations key_len)
  unfolding verify_password hash_password
  verify-hash_iff salt p q h =
      subst (λ b. (b ≡ true) ↔ (derived q ≡ derived p)) (sym read)
        (eq_text_iff (derived q) (derived p))
    where
      derived : Text → Bytes
      derived t = pbkdf2 hmac (utf8 t) salt iterations key_len

      key : IsKey (derived p)
      key = pbkdf2-IsKey (utf8 p) salt iterations

      parts :
          verify_parts hmac q
            (codes "pbkdf2" ∷ codes "120000" ∷ encode salt ∷ encode (derived p) ∷ [])
          ≡ compare_keys hmac q
              (some (pos iterations))
              (decode (encode salt))
              (decode (encode (derived p)))
      parts = verify_parts-stored q (encode salt) (encode (derived p))

      read : verify_password hmac q (hash_password hmac salt p) ≡ eq_text (derived q) (derived p)
      read =
          ap (verify_parts hmac q) (split-formatted salt (derived p) h key.1)
          ∙ parts
          ∙ compare_keys-stored q iterations salt (derived p) (ground arith) h key

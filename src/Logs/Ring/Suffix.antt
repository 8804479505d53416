-- ===== src/Logs/Ring/Suffix.antt =====
-- The ring holds the last bytes of everything that was written to it.
use matrix_runtime.Common.{
  ℕ, zero, suc, ◌-◌, ◌≤◌, ◌≡◌, refl, ◌∙◌, sym, ap, List, [], ◌∷◌, ◌++◌, length, drop, ltb, arith,
  append_assoc, append-nil, length-append, Bool-cases, inl, inr,
}
use matrix_runtime.Logs.Ring.{Ring, new_ring, write, contents}

-- The last `n` elements.
abbrev pub suffix : ℕ → List ℕ → List ℕ
suffix n xs = drop (length xs - n) xs

-- Every write in turn.
unfoldable pub write_all : List (List ℕ) → Ring → Ring
write_all [] r = r
write_all (p ∷ ps) r = write_all ps (write p r)

abbrev pub concat : List (List ℕ) → List ℕ
concat [] = []
concat (p ∷ ps) = p ++ concat ps

drop-nil : (k : ℕ) → drop {A = ℕ} k [] ≡ []
drop-nil zero = refl
drop-nil (suc k) = refl

drop-pred : (n : ℕ) (x : ℕ) (xs : List ℕ) → n ≤ length xs → suffix n (x ∷ xs) ≡ suffix n xs
drop-pred n x xs h =
    ap (λ k. drop k (x ∷ xs)) {x = suc (length xs) - n} {y = suc (length xs - n)} (omega arith)

suffix-drop :
    (n k : ℕ) (xs p : List ℕ) → k ≤ length xs - n → suffix n (drop k xs ++ p) ≡ suffix n (xs ++ p)
suffix-drop n zero xs p h = refl
suffix-drop n (suc k) [] p h = refl
suffix-drop n (suc k) (x ∷ xs) p h =
    suffix-drop n k xs p (omega arith)
    ∙ sym (drop-pred n x (xs ++ p) (omega (arith, length-append xs p)))

suffix_all : (n : ℕ) (xs : List ℕ) → length xs ≤ n → suffix n xs ≡ xs
suffix_all n xs h = ap (λ k. drop k xs) {x = length xs - n} {y = 0} (omega arith)

buf-write : (p : List ℕ) (r : Ring) → (write p r).buf ≡ suffix r.limit (r.buf ++ p)
unfolding write
buf-write p r = elim (Bool-cases (ltb r.limit (length (r.buf ++ p)))) [
  | inl over ↦ rw over
  | inr fits ↦ rw fits (sym (suffix_all r.limit (r.buf ++ p) (ground arith)))
]

limit-write : (p : List ℕ) (r : Ring) → (write p r).limit ≡ r.limit
unfolding write
limit-write p r = ground arith

write_all-suffix :
    (n : ℕ) (ps : List (List ℕ)) (r : Ring) (past : List ℕ)
    → r.limit ≡ n
    → r.buf ≡ suffix n past
    → (write_all ps r).buf ≡ suffix n (past ++ concat ps)
unfolding write_all
write_all-suffix n [] r past e h = rw append-nil h
write_all-suffix n (p ∷ ps) r past e h = rw (← append_assoc) (
    write_all-suffix n ps (write p r) (past ++ p) (limit-write p r ∙ e) (
      buf-write p r
      ∙ ap (λ m. suffix m (r.buf ++ p)) e
      ∙ ap (λ b. suffix n (b ++ p)) h
      ∙ suffix-drop n (length past - n) past p (omega arith)))

-- Whatever is written in whatever portions to a new ring of a given limit, the buffer holds exactly
-- the last bytes of the whole output, as many as the limit (one megabyte for the limit 0) allows.
pub contents-write_all :
    (limit : ℕ) (ps : List (List ℕ))
    → contents (write_all ps (new_ring limit)) ≡ suffix (new_ring limit).limit (concat ps)
unfolding new_ring
contents-write_all limit ps = write_all-suffix _ ps (new_ring limit) [] refl (sym (drop-nil _))

-- ===== src/Hf/RoundTrip.antt =====
-- A reference that is printed and parsed again.
use matrix_runtime.Common.{
  ℕ, ◌≡◌, refl, sym, ap, ◌∙◌, true, false, [], ◌∷◌, ◌++◌, ◌==◌, any, All, if-intro, arith,
  append_assoc, Text, codes,
}
use matrix_runtime.Common.Strings.{is_empty, trim_space, trim_prefix, has_prefix, split}
use matrix_runtime.Hf.{
  Ref, ok, repo_id, cut_last_at, chosen_revision, of_parts, parse_id, parse_ref,
}

-- No character is the given one.
abbrev pub Lacks : ℕ → Text → Type 0
Lacks c t = All (λ d. (d == c) ≡ false) t

Lacks-any : (c : ℕ) (t : Text) → Lacks c t → any (λ d. d == c) t ≡ false
Lacks-any c [] h = refl
Lacks-any c (d ∷ t) h = ground (arith, Lacks-any c t h.1)

any-append_at : (s t : Text) → any (λ d. d == b'@') (s ++ b'@' ∷ t) ≡ true
any-append_at [] t = refl
any-append_at (c ∷ s) t = ground (arith, any-append_at s t)

cut_last_at-append : (s t : Text) → Lacks b'@' t → cut_last_at (s ++ b'@' ∷ t) ≡ (s, t)
unfolding cut_last_at
cut_last_at-append [] t h = ground (arith, Lacks-any b'@' t h)
cut_last_at-append (c ∷ s) t h = ground (arith, any-append_at s t, cut_last_at-append s t h)

split-one : (sep : ℕ) (t : Text) → Lacks sep t → split sep t ≡ t ∷ []
unfolding split
split-one sep [] h = refl
split-one sep (c ∷ t) h = ground (arith, split-one sep t h.1)

split-two :
    (sep : ℕ) (s t : Text) → Lacks sep s → Lacks sep t → split sep (s ++ sep ∷ t) ≡ s ∷ t ∷ []
unfolding split
split-two sep [] t hs ht = ground (arith, split-one sep t ht)
split-two sep (c ∷ s) t hs ht = ground (arith, split-two sep s t hs.1 ht)

-- A full reference as it is written, with the prefix and a revision.
unfoldable pub spell : Ref → Text
unfolding repo_id
spell r = codes "hf:" ++ (repo_id r ++ b'@' ∷ r.revision)

-- A name without a slash and a revision without an `@`, none of them empty, that stay as they are when
-- prefixes and blanks are taken off.
pub record IsRef (r : Ref) : Type 0 where
  pub hub : r.source ≡ codes "huggingface"
  pub namespace : Lacks b'/' r.namespace × (is_empty r.namespace ≡ false)
  pub name : Lacks b'/' r.name × (is_empty r.name ≡ false)
  pub revision : Lacks b'@' r.revision × (is_empty r.revision ≡ false)
  pub unprefixed : has_prefix (repo_id r ++ b'@' ∷ r.revision) (codes "huggingface:") ≡ false
  pub trimmed : trim_space (spell r) ≡ spell r

hf_prefix : (t : Text) → trim_prefix (codes "hf:" ++ t) (codes "hf:") ≡ t
unfolding trim_prefix has_prefix
hf_prefix t = refl

unprefixed : (t p : Text) → has_prefix t p ≡ false → trim_prefix t p ≡ t
unfolding trim_prefix
unprefixed t p h = ground (arith, h)

cut_spelled :
    (r : Ref)
    → IsRef r
    → cut_last_at
        (trim_prefix (trim_prefix (trim_space (spell r)) (codes "hf:")) (codes "huggingface:"))
      ≡ (repo_id r, r.revision)
unfolding spell
cut_spelled r h =
    ap (λ t. cut_last_at (trim_prefix (trim_prefix t (codes "hf:")) (codes "huggingface:")))
      h.trimmed
    ∙ ap (λ t. cut_last_at (trim_prefix t (codes "huggingface:")))
        (hf_prefix (repo_id r ++ b'@' ∷ r.revision))
    ∙ ap cut_last_at
        (unprefixed (repo_id r ++ b'@' ∷ r.revision) (codes "huggingface:") h.unprefixed)
    ∙ cut_last_at-append (repo_id r) r.revision h.revision.0

split-repo_id : (r : Ref) → IsRef r → split b'/' (repo_id r) ≡ r.namespace ∷ r.name ∷ []
unfolding repo_id
split-repo_id r h =
    ap (split b'/') (append_assoc r.namespace (codes "/") r.name)
    ∙ split-two b'/' r.namespace r.name h.namespace.0 h.name.0

of_parts-full :
    (r : Ref)
    → IsRef r
    → of_parts (chosen_revision [] r.revision) (r.namespace ∷ r.name ∷ []) ≡ ok r
unfolding chosen_revision
of_parts-full r h = ground (arith, h.namespace.1, h.name.1, h.revision.1, h.hub)

-- A reference to huggingface with a namespace and a name, neither empty nor with a slash, and a revision,
-- neither empty nor with an at sign, whose repository does not begin with "huggingface:" and whose full
-- form has no blanks around it, is parsed from that form to itself.
pub parse_ref-spell : (r : Ref) → IsRef r → parse_ref (spell r) [] ≡ ok r
unfolding parse_ref spell
parse_ref-spell r h =
    if-intro (λ x. x ≡ ok r) (is_empty (trim_space (spell r)))
      (λ e. absurd (cc (sym e ∙ ap is_empty h.trimmed)))
      (λ e.
        ap (parse_id []) (cut_spelled r h)
        ∙ ap (of_parts (chosen_revision [] r.revision)) (split-repo_id r h)
        ∙ of_parts-full r h)

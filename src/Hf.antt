-- ===== src/Hf.antt =====
-- internal/hf/resolver.go and types.go: references to models of Hugging Face.
pub mod RoundTrip
pub mod Metadata
use matrix_runtime.Common.{
  ℕ, Bool, true, false, ◌&&◌, ◌||◌, List, [], ◌∷◌, ◌++◌, Option, none, some, ◌==◌, any,
  if◌then◌else◌, Text, codes,
}
use matrix_runtime.Common.Strings.{is_empty, trim_space, trim_prefix, split}

pub record Ref : Type 0 where
  pub source : Text
  pub namespace : Text
  pub name : Text
  pub revision : Text

pub data RefError : Type 0 where
  empty_model invalid_model : RefError

pub data Parsed : Type 0 where
  ok : Ref → Parsed
  err : RefError → Parsed

-- RepoID
unfoldable pub repo_id : Ref → Text
repo_id r = r.namespace ++ codes "/" ++ r.name

-- What stands before and after the last `@`; nothing after it where there is none.
unfoldable pub cut_last_at : Text → Text × Text
cut_last_at [] = ([], [])
cut_last_at (c ∷ s) =
    let (before, after) = cut_last_at s in
    if any (λ d. d == b'@') s
    then (c ∷ before, after)
    else if c == b'@'
    then ([], s)
    else (c ∷ s, [])

-- `rev := revisionOverride; if rev == "" { rev = embeddedRev }; if rev == "" { rev = "main" }`
unfoldable pub chosen_revision : Text → Text → Text
chosen_revision override embedded =
    if is_empty override then (if is_empty embedded then codes "main" else embedded) else override

abbrev pub of_parts : Text → List Text → Parsed
of_parts revision (namespace ∷ name ∷ []) =
    if is_empty namespace || is_empty name
    then err invalid_model
    else ok (record {
      source = codes "huggingface";
      namespace = namespace;
      name = name;
      revision = revision;
    })
of_parts revision [] = err invalid_model
of_parts revision (a ∷ []) = err invalid_model
of_parts revision (a ∷ b ∷ c ∷ rest) = err invalid_model

abbrev pub parse_id : Text → Text × Text → Parsed
parse_id override (id, embedded) = of_parts (chosen_revision override embedded) (split b'/' id)

unfoldable pub parse_ref : Text → Text → Parsed
unfolding cut_last_at chosen_revision
parse_ref model override =
    let id = trim_space model in
    if is_empty id
    then err empty_model
    else parse_id override
        (cut_last_at (trim_prefix (trim_prefix id (codes "hf:")) (codes "huggingface:")))

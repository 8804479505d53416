-- ===== src/Hf/Metadata.antt =====
-- internal/hf/metadata.go: what the runtime keeps of the answer of the hub. strings.ToLower and the count of
-- parameters that a name suggests (a regular expression and floating-point numbers) are arguments; counts
-- that are not positive are 0.
use matrix_runtime.Common.{
  ℕ, ◌≡◌, ◌↔◌, ◌≤◌, ◌<◌, ◌⊎◌, Bool, true, false, not, ◌&&◌, ◌||◌, List, [], ◌∷◌, ◌++◌, Option, none,
  some, any, ltb, leb, if◌then◌else◌, arith, Text, codes,
}
use matrix_runtime.Common.Strings.{eq_text, is_empty, has_prefix, trim_prefix}
use matrix_runtime.Hf.{Ref, repo_id}

-- A JSON value of a field without a fixed type.
pub data Json : Type 0 where
  boolean : Bool → Json
  string : Text → Json
  strings : List (Option Text) → Json  -- a list, with none for what is not a string
  something : Json

pub record HubModelInfo : Type 0 where
  pub pipeline_tag : Text
  pub library_name : Text
  pub model_type : Text
  pub tags : List Text
  pub is_private : Bool
  pub gated : Json
  pub license : Json
  pub safetensors_total : ℕ

pub record Metadata : Type 0 where
  pub model : Text
  pub source : Text
  pub namespace : Text
  pub name : Text
  pub revision : Text
  pub pipeline_tag : Text
  pub library_name : Text
  pub model_type : Text
  pub tags : List Text
  pub is_private : Bool
  pub gated : Bool
  pub license : Text
  pub estimated_parameters : ℕ
  pub recommended_runtime : Text
  pub requires_gpu : Bool

unfoldable pub gated_true : Json → Bool
gated_true (boolean b) = b
gated_true (string t) = not (is_empty t) && not (eq_text t (codes "false"))
gated_true (strings ts) = false
gated_true something = false

unfoldable pub license_tag : List Text → Text
license_tag [] = []
license_tag (t ∷ tags) =
    let rest = license_tag tags in
    if has_prefix t (codes "license:") then trim_prefix t (codes "license:") else rest

unfoldable pub license_from : Json → List Text → Text
unfolding license_tag
license_from (string l) tags = l
license_from (strings (some s ∷ rest)) tags = s
license_from (strings (none ∷ rest)) tags = license_tag tags
license_from (strings []) tags = license_tag tags
license_from (boolean b) tags = license_tag tags
license_from something tags = license_tag tags

-- `strings.Contains`
unfoldable pub contains : Text → Text → Bool
contains [] p = is_empty p
contains (c ∷ s) p = has_prefix (c ∷ s) p || contains s p

abbrev pub is_gguf : (Text → Text) → List Text → Bool
is_gguf lower tags = any (λ t. contains (lower t) (codes "gguf")) tags

unfoldable pub recommend_runtime : (Text → Text) → List Text → ℕ → Text × Bool
recommend_runtime lower tags parameters =
    if is_gguf lower tags
    then (codes "ollama", false)
    else if leb 7000000000 parameters
    then (codes "vllm", true)
    else if ltb 0 parameters && ltb parameters 3000000000
    then (codes "ollama", false)
    else (codes "vllm", leb 7000000000 parameters)

unfoldable pub build_metadata : (Text → Text) → (Text → ℕ) → Ref → HubModelInfo → Metadata
unfolding recommend_runtime repo_id gated_true license_from
build_metadata lower suggested ref info =
    let total = info.safetensors_total in
    let parameters = if ltb 0 total then total else suggested ref.name in
    let (recommended, gpu) = recommend_runtime lower info.tags parameters in
    record {
      model = codes "hf:" ++ repo_id ref;
      source = codes "huggingface";
      namespace = ref.namespace;
      name = ref.name;
      revision = ref.revision;
      pipeline_tag = info.pipeline_tag;
      library_name = info.library_name;
      model_type = info.model_type;
      tags = info.tags;
      is_private = info.is_private;
      gated = gated_true info.gated;
      license = license_from info.license info.tags;
      estimated_parameters = parameters;
      recommended_runtime = recommended;
      requires_gpu = gpu;
    }

-- The metadata asks for a GPU exactly when no tag names GGUF and the model has seven billion parameters
-- or more, and it recommends ollama exactly when a tag names GGUF or the count is known and below three
-- billion.
pub build_metadata-recommends :
    (lower : Text → Text) (suggested : Text → ℕ) (ref : Ref) (info : HubModelInfo)
    → let m = build_metadata lower suggested ref info in
      ((m.requires_gpu ≡ true)
        ↔ ((is_gguf lower m.tags ≡ false) × (7000000000 ≤ m.estimated_parameters)))
      × ((m.recommended_runtime ≡ codes "ollama") ↔ (
          (is_gguf lower m.tags ≡ true)
          ⊎ ((0 < m.estimated_parameters) × (m.estimated_parameters < 3000000000))))
unfolding build_metadata recommend_runtime
build_metadata-recommends lower suggested ref info = ground arith

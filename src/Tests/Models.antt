-- ===== src/Tests/Models.antt =====
-- A reference to a model and what is kept of it.
use matrix_runtime.Common.{◌≡◌, ◌↔◌, ◌⊎◌, ◌≤◌, ◌<◌, refl, true, false, [], ◌∷◌, arith, codes}
use matrix_runtime.Common.Strings.{trim_space, has_prefix}
use matrix_runtime.Hf.{Ref, ok, parse_ref, repo_id}
use matrix_runtime.Hf.Metadata.{
  something, string, HubModelInfo, build_metadata, is_gguf, build_metadata-recommends,
}
use matrix_runtime.Hf.RoundTrip.{IsRef, spell, parse_ref-spell}

abbrev qwen : Ref
qwen = record {
  source = codes "huggingface";
  namespace = codes "Qwen";
  name = codes "Q7";
  revision = codes "dev";
}

qwen-IsRef : IsRef qwen
unfolding trim_space has_prefix spell repo_id
qwen-IsRef = record {
  hub = refl;
  namespace = (ground arith, refl);
  name = (ground arith, refl);
  revision = (ground arith, refl);
  unprefixed = refl;
  trimmed = refl;
}

parse_ref-spell_example : parse_ref (spell qwen) [] ≡ ok qwen
parse_ref-spell_example = parse_ref-spell qwen qwen-IsRef

abbrev info : HubModelInfo
info = record {
  pipeline_tag = codes "text-generation";
  library_name = codes "transformers";
  model_type = codes "qwen2";
  tags = codes "license:mit" ∷ [];
  is_private = false;
  gated = something;
  license = string (codes "mit");
  safetensors_total = 7615616512;
}

build_metadata-recommends_example :
    let m = build_metadata (λ t. t) (λ n. 0) qwen info in
    ((m.requires_gpu ≡ true)
      ↔ ((is_gguf (λ t. t) m.tags ≡ false) × (7000000000 ≤ m.estimated_parameters)))
    × ((m.recommended_runtime ≡ codes "ollama") ↔ (
        (is_gguf (λ t. t) m.tags ≡ true)
        ⊎ ((0 < m.estimated_parameters) × (m.estimated_parameters < 3000000000))))
build_metadata-recommends_example = build_metadata-recommends (λ t. t) (λ n. 0) qwen info

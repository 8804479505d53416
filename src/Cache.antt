-- ===== src/Cache.antt =====
-- internal/cache: where models, scratch space and locks lie under the data directory.
pub mod Keys
pub mod Locks
use matrix_runtime.Common.{
  ℕ, Bool, not, List, [], ◌∷◌, ◌++◌, Option, none, some, ◌==◌, if◌then◌else◌, is_some, Text, codes,
}
use matrix_runtime.Common.Strings.{eq_text}
use matrix_runtime.Common.Dict.{Dict, lookup, insert, retain}
use matrix_runtime.Common.Paths.{slash, join_path}

pub record Layout : Type 0 where
  pub base : Text

unfoldable pub models : Layout → Text
unfolding join_path
models l = join_path (l.base ∷ codes "models" ∷ [])

unfoldable pub hugging_face : Layout → Text
unfolding models join_path
hugging_face l = join_path (models l ∷ codes "huggingface" ∷ [])

-- `strings.ReplaceAll(key, "/", "--")`
unfoldable pub replace_slashes : Text → Text
replace_slashes [] = []
replace_slashes (c ∷ s) = (if c == slash then codes "--" else c ∷ []) ++ replace_slashes s

unfoldable pub safe_model_key : Text → Text → Text
unfolding replace_slashes
safe_model_key namespace name = replace_slashes (namespace ++ codes "--" ++ name)

unfoldable pub model_dir : Layout → Text → Text → Text
unfolding hugging_face safe_model_key join_path
model_dir l namespace name = join_path (hugging_face l ∷ safe_model_key namespace name ∷ [])

-- lock.json
pub record Lock : Type 0 where
  pub owner : Text
  pub acquired : ℕ

pub data LockError : Type 0 where
  locked : LockError
  failed : Text → LockError

-- The lock files by their paths; making the directory and writing the file can fail.
abbrev pub Locks : Type 0
Locks = Dict Lock

unfoldable pub lock_path : Layout → Text → Text → Text
unfolding model_dir join_path
lock_path l namespace name = join_path (model_dir l namespace name ∷ codes "lock.json" ∷ [])

abbrev pub write_lock : Option Text → Text → Lock → Locks → Option LockError × Locks
write_lock (some e) path lock ls = (some (failed e), ls)
write_lock none path lock ls = (none, insert path lock ls)

abbrev pub lock_model : Option Text → Option Text → Text → Lock → Locks → Option LockError × Locks
lock_model (some e) write_error path lock ls = (some (failed e), ls)
lock_model none write_error path lock ls =
    if is_some (lookup path ls) then (some locked, ls) else write_lock write_error path lock ls

-- AcquireModelLock on a disk that nothing else changes meanwhile: it looks for the file and writes it in two
-- calls.
unfoldable pub acquire_model_lock :
    Option Text → Option Text → Layout → Text → Text → Text → ℕ → Locks → Option LockError × Locks
unfolding lock_path
acquire_model_lock dir_error write_error l namespace name owner now ls =
    lock_model dir_error write_error (lock_path l namespace name)
      (record { owner = owner; acquired = now }) ls

unfoldable pub release_model_lock : Layout → Text → Text → Locks → Locks
unfolding lock_path
release_model_lock l namespace name ls =
    retain (λ path lock. not (eq_text path (lock_path l namespace name))) ls

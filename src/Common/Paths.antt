-- ===== src/Common/Paths.antt =====
-- `filepath.Clean` and `filepath.Join` on Unix paths.
pub mod Children
pub mod Spelling
pub mod Stacks
use mathlib.Core.List.{reverse}
use Prim.Native.Nat.{ℕ}
use mathlib.Core.Bool.{Bool, true, false, ◌||◌, not}
use mathlib.Core.List.{List, [], ◌∷◌, ◌++◌}
use matrix_runtime.Common.Tests.{if◌then◌else◌}
use matrix_runtime.Common.Lists.{keep}
use matrix_runtime.Common.Strings.{Text, codes, eq_text, is_empty, split, has_prefix}

abbrev pub slash : ℕ
slash = b'/'

-- `..` takes the last component off; at the root it stays there, and a relative path keeps it.
abbrev pub pop_component : Bool → List Text → List Text
pop_component true [] = []
pop_component false [] = codes ".." ∷ []
pop_component rooted (t ∷ stack) = if eq_text t (codes "..") then codes ".." ∷ t ∷ stack else stack

-- The components of a path, cleaned; the stack holds them last first.
unfoldable pub clean_components : Bool → List Text → List Text → List Text
clean_components rooted stack [] = stack
clean_components rooted stack (c ∷ cs) =
    clean_components rooted
      (if is_empty c || eq_text c (codes ".")
        then stack
        else if eq_text c (codes "..")
        then pop_component rooted stack
        else c ∷ stack)
      cs

-- `strings.Join(parts, "/")`
unfoldable pub join_slash : List Text → Text
join_slash [] = []
join_slash (t ∷ []) = t
join_slash (t ∷ u ∷ ts) = t ++ slash ∷ join_slash (u ∷ ts)

unfoldable pub clean : Text → Text
unfolding clean_components join_slash split has_prefix
clean p =
    let rooted = has_prefix p (slash ∷ []) in
    let body = join_slash (reverse (clean_components rooted [] (split slash p))) in
    if rooted then slash ∷ body else if is_empty body then codes "." else body

-- Empty elements are dropped, and nothing but empty elements gives the empty path.
unfoldable pub join_path : List Text → Text
unfolding clean
join_path parts = non_empty (keep (λ t. not (is_empty t)) parts)
  where
    non_empty : List Text → Text
    non_empty [] = []
    non_empty (t ∷ ts) = clean (join_slash (t ∷ ts))

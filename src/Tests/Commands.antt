-- ===== src/Tests/Commands.antt =====
-- The command policy and the time limits of internal/security.
use mathlib.Core.List.{Memᴰ}
use matrix_runtime.Common.{All, refl, List, [], ◌∷◌, Text, codes}
use matrix_runtime.Common.Strings.{trim_space, eq_text}
use matrix_runtime.Security.Command
use matrix_runtime.Security.Command.{split_command, validate_command}
use matrix_runtime.Security.Command.Safety.{IsSafe, validate_command-IsSafe}

abbrev words : List Text
words = codes "npx" ∷ codes "my server" ∷ []

abbrev line : Text
line = codes "npx 'a b'"

validate_command-IsSafe_example :
    All (λ c. ¬ (Memᴰ c Command.shell_metacharacters)) (trim_space line)
    × IsSafe (codes "npx" ∷ codes "a b" ∷ [])
unfolding validate_command trim_space Command.contains_any Command.shell_metacharacters
    split_command Command.check_tokens eq_text
validate_command-IsSafe_example = validate_command-IsSafe line _ refl

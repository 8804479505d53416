-- ===== src/Security/Command.antt =====
-- internal/security/commands.go: the start command of a sandbox. The Go maps of allowed programs and
-- of blocked tokens are lists, in the order of the source.
pub mod Split
pub mod Safety
use matrix_runtime.Common.{
  ℕ, ◌≡◌, Bool, true, false, ◌&&◌, ◌||◌, List, [], ◌∷◌, ◌++◌, Option, none, some, ltb, ◌==◌, any,
  if◌then◌else◌, Text, codes,
}
use matrix_runtime.Common.Strings.{eq_text, is_empty, trim_space}

unfoldable pub allowed_prefixes : List Text
allowed_prefixes =
    codes "npx" ∷ codes "uvx" ∷ codes "pipx" ∷ codes "python" ∷ codes "python3" ∷ codes "node" ∷ []

unfoldable pub blocked_tokens : List Text
blocked_tokens =
    codes "sudo"
    ∷ codes "docker"
    ∷ codes "apt"
    ∷ codes "apt-get"
    ∷ codes "apk"
    ∷ codes "yum"
    ∷ codes "dnf"
    ∷ codes "systemctl"
    ∷ codes "mkfs"
    ∷ codes "mount"
    ∷ codes "curl"
    ∷ codes "wget"
    ∷ codes "sh"
    ∷ codes "bash"
    ∷ codes "zsh"
    ∷ codes "eval"
    ∷ []

-- `m[t]` for a map of names to true
unfoldable pub listed : Text → List Text → Bool
listed t names = any (λ n. eq_text n t) names

-- "&|;<>`$()\n\r"
unfoldable pub shell_metacharacters : Text
shell_metacharacters = b'&' ∷ b'|' ∷ b';' ∷ b'<' ∷ b'>' ∷ 96 ∷ b'$' ∷ b'(' ∷ b')' ∷ 10 ∷ 13 ∷ []

-- `strings.IndexAny(s, chars) >= 0`
unfoldable pub contains_any : Text → Text → Bool
contains_any [] chars = false
contains_any (c ∷ s) chars = any (λ d. d == c) chars || contains_any s chars

pub data CommandError : Type 0 where
  empty_command : CommandError
  metacharacter : CommandError
  unbalanced_quote : CommandError
  not_allowed : Text → CommandError
  blocked : Text → CommandError

pub data Outcome (A : Type 0) : Type 0 where
  ok : A → Outcome A
  err : CommandError → Outcome A

-- The variables of the loop: the tokens so far, the current token, the open quote (0 for none) and
-- whether a token has begun.
pub record Scan : Type 0 where
  pub tokens : List Text
  pub cur : Text
  pub quote : ℕ
  pub in_token : Bool

unfoldable pub flush : Scan → Scan
flush s =
    if s.in_token
    then record s { tokens = s.tokens ++ s.cur ∷ []; cur = []; in_token = false }
    else s

unfoldable pub scan_rune : ℕ → Scan → Scan
unfolding flush
scan_rune r s =
    if ltb 0 s.quote
    then (if r == s.quote then record s { quote = 0 } else record s { cur = s.cur ++ r ∷ [] })
    else if r == b'\'' || r == b'"'
    then record s { quote = r; in_token = true }
    else if r == b' ' || r == 9
    then flush s
    else record s { in_token = true; cur = s.cur ++ r ∷ [] }

unfoldable pub scan : Text → Scan → Scan
unfolding scan_rune
scan [] s = s
scan (r ∷ t) s = scan t (scan_rune r s)

abbrev pub start : Scan
start = record { tokens = []; cur = []; quote = 0; in_token = false }

abbrev finish_scan : Scan → Outcome (List Text)
finish_scan s = if ltb 0 s.quote then err unbalanced_quote else ok (flush s).tokens

unfoldable pub split_command : Text → Outcome (List Text)
unfolding scan flush
split_command t = finish_scan (scan t start)

-- Without the slashes at the end.
unfoldable pub trim_slashes : Text → Text
trim_slashes [] = []
trim_slashes (c ∷ s) =
    let rest = trim_slashes s in if is_empty rest && c == b'/' then [] else c ∷ rest

-- What stands after the last slash.
unfoldable pub after_slash : Text → Text
after_slash [] = []
after_slash (c ∷ s) =
    let rest = after_slash s in
    if any (λ d. d == b'/') s then rest else if c == b'/' then s else c ∷ s

-- `filepath.Base` on a Unix path
unfoldable pub base : Text → Text
unfolding trim_slashes after_slash
base [] = b'.' ∷ []
base (c ∷ p) =
    let name = after_slash (trim_slashes (c ∷ p)) in if is_empty name then b'/' ∷ [] else name

-- The first token whose base name is blocked.
unfoldable pub first_blocked : List Text → Option Text
unfolding listed base blocked_tokens
first_blocked [] = none
first_blocked (t ∷ ts) =
    let rest = first_blocked ts in if listed (base t) blocked_tokens then some t else rest

abbrev refuse_blocked : List Text → Option Text → Outcome (List Text)
refuse_blocked tokens none = ok tokens
refuse_blocked tokens (some t) = err (blocked t)

-- The checks on the tokens, from `len(tokens) == 0` on.
unfoldable pub check_tokens : List Text → Outcome (List Text)
unfolding listed base allowed_prefixes first_blocked
check_tokens [] = err empty_command
check_tokens (program ∷ args) =
    if listed (base program) allowed_prefixes
    then refuse_blocked (program ∷ args) (first_blocked (program ∷ args))
    else err (not_allowed (base program))

abbrev then_check : Outcome (List Text) → Outcome (List Text)
then_check (err e) = err e
then_check (ok tokens) = check_tokens tokens

unfoldable pub validate_command : Text → Outcome (List Text)
validate_command raw =
    let trimmed = trim_space raw in
    if is_empty trimmed
    then err empty_command
    else if contains_any trimmed shell_metacharacters
    then err metacharacter
    else then_check (split_command trimmed)

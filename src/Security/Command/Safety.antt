-- ===== src/Security/Command/Safety.antt =====
-- ValidateCommand: what an accepted command is, and what the checks on it let through.
use mathlib.Core.List.{Memᴰ}
use matrix_runtime.Common.{
  subst, ℕ, ◌≡◌, refl, sym, ap, ◌∙◌, true, false, List, [], ◌∷◌, none, arith, any, All, Text,
  Bool-cases, inl, inr, ◌==◌,
}
use matrix_runtime.Common.Strings.{eq_text, eq_text_iff, trim_space}
use matrix_runtime.Security.Command.{
  allowed_prefixes, blocked_tokens, listed, base, first_blocked, check_tokens, validate_command,
  Outcome, ok, err, shell_metacharacters, contains_any, split_command, then_check,
}
use matrix_runtime.Security.Command.Split.{split_command-All}

any_eq-Memᴰ : (c : ℕ) (chars : Text) → any (λ d. d == c) chars ≡ false → ¬ (Memᴰ c chars)
any_eq-Memᴰ c (d ∷ chars) h (Memᴰ.head e) = ground arith
any_eq-Memᴰ c (d ∷ chars) h (Memᴰ.tail m) = any_eq-Memᴰ c chars (ground arith) m
any_eq-Memᴰ c [] h m = elim m [ ]

contains_any-All : (t chars : Text) → contains_any t chars ≡ false → All (λ c. ¬ (Memᴰ c chars)) t
unfolding contains_any
contains_any-All [] chars h = tt
contains_any-All (c ∷ t) chars h =
    (any_eq-Memᴰ c chars (ground arith), contains_any-All t chars (ground arith))

listed-Memᴰ : (t : Text) (names : List Text) → listed t names ≡ true → Memᴰ t names
unfolding listed
listed-Memᴰ t [] h = absurd (cc h)
listed-Memᴰ t (n ∷ names) h = elim (Bool-cases (eq_text n t)) [
  | inl e ↦ Memᴰ.head (sym ((eq_text_iff n t).0 e))
  | inr e ↦ Memᴰ.tail (listed-Memᴰ t names (ground arith))
]

Memᴰ-listed : (t : Text) (names : List Text) → Memᴰ t names → listed t names ≡ true
unfolding listed
Memᴰ-listed t [] m = elim m [ ]
Memᴰ-listed t (n ∷ names) (Memᴰ.head e) = ground (arith, eq_text_iff n t)
Memᴰ-listed t (n ∷ names) (Memᴰ.tail m) = ground (arith, Memᴰ-listed t names m)

first_blocked-All :
    (ts : List Text) → first_blocked ts ≡ none → All (λ t. ¬ (Memᴰ (base t) blocked_tokens)) ts
unfolding first_blocked
first_blocked-All [] h = tt
first_blocked-All (t ∷ ts) h = (
  λ m. ground (arith, Memᴰ-listed (base t) blocked_tokens m),
  first_blocked-All ts (ground arith),
)

-- The first token names an allowed program, no token names a blocked one, and no token holds a shell
-- metacharacter.
pub record IsSafe (tokens : List Text) : Type 0 where
  pub program : Text
  pub args : List Text
  pub split : tokens ≡ program ∷ args
  pub allowed : Memᴰ (base program) allowed_prefixes
  pub unblocked : All (λ t. ¬ (Memᴰ (base t) blocked_tokens)) tokens
  pub plain : All (All (λ c. ¬ (Memᴰ c shell_metacharacters))) tokens

check_tokens-ok :
    (ts tokens : List Text)
    → check_tokens ts ≡ ok tokens
    → (ts ≡ tokens) × (first_blocked tokens ≡ none)
unfolding check_tokens
check_tokens-ok [] tokens h = absurd (cc h)
check_tokens-ok (p ∷ args) tokens h = ground arith

check_tokens-allowed :
    (p : Text) (args : List Text)
    → check_tokens (p ∷ args) ≡ ok (p ∷ args)
    → listed (base p) allowed_prefixes ≡ true
unfolding check_tokens
check_tokens-allowed p args h = ground arith

then_check_inv :
    (r : Outcome (List Text)) {tokens : List Text}
    → then_check r ≡ ok tokens
    → (ts : List Text) × (r ≡ ok ts) × (check_tokens ts ≡ ok tokens)
then_check_inv (err e) h = absurd (cc h)
then_check_inv (ok ts) h = (ts, refl, h)

validate_command_inv :
    (raw : Text) (tokens : List Text)
    → validate_command raw ≡ ok tokens
    → (contains_any (trim_space raw) shell_metacharacters ≡ false)
      × (then_check (split_command (trim_space raw)) ≡ ok tokens)
unfolding validate_command
validate_command_inv raw tokens h = (ground arith, ground arith)

check_tokens-IsSafe :
    (ts : List Text) {tokens : List Text}
    → check_tokens ts ≡ ok tokens
    → All (All (λ c. ¬ (Memᴰ c shell_metacharacters))) ts
    → IsSafe tokens
check_tokens-IsSafe [] h a = absurd (unfold check_tokens in cc h)
check_tokens-IsSafe (p ∷ args) {tokens} h a =
    let (same, free) = check_tokens-ok (p ∷ args) tokens h in
    record {
      program = p;
      args = args;
      split = sym same;
      allowed =
          listed-Memᴰ (base p) allowed_prefixes
            (check_tokens-allowed p args (h ∙ ap ok (sym same)));
      unblocked = first_blocked-All tokens free;
      plain = subst (All (All (λ c. ¬ (Memᴰ c shell_metacharacters)))) same a;
    }

-- Where a command line is accepted, the line without the blanks around it holds no shell metacharacter, and
-- the tokens that come back begin with an allowed program, are none of the blocked ones, and hold no shell
-- metacharacter.
pub validate_command-IsSafe :
    (raw : Text) (tokens : List Text)
    → validate_command raw ≡ ok tokens
    → All (λ c. ¬ (Memᴰ c shell_metacharacters)) (trim_space raw) × IsSafe tokens
validate_command-IsSafe raw tokens h =
    let (none_in, checked) = validate_command_inv raw tokens h in
    let plain = contains_any-All (trim_space raw) shell_metacharacters none_in in
    let (ts, parts, rest) = then_check_inv (split_command (trim_space raw)) checked in
    (
      plain,
      check_tokens-IsSafe ts rest (
          split_command-All (λ c. ¬ (Memᴰ c shell_metacharacters)) (trim_space raw) ts plain parts),
    )

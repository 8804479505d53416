-- ===== src/Security/Command/Split.antt =====
-- SplitCommand: what it makes of a quoted line, and where the code points of its tokens come from.
use matrix_runtime.Common.{
  All-snoc, ltb, ◌==◌, ◌||◌, if◌then◌else◌, ℕ, ◌≡◌, Bool, true, false, List, [], ◌∷◌, ◌++◌, arith,
  All, Text, subst,
}
use matrix_runtime.Security.Command.{
  Scan, scan, scan_rune, flush, start, finish_scan, split_command, ok,
}

-- A token between double quotes.
abbrev pub quoted : Text → Text
quoted t = b'"' ∷ t ++ b'"' ∷ []

-- A command line: each token quoted, and a space behind it.
abbrev pub spell : List Text → Text
spell [] = []
spell (t ∷ ts) = quoted t ++ b' ' ∷ spell ts

abbrev between : List Text → Scan
between tokens = record { tokens = tokens; cur = []; quote = 0; in_token = false }

abbrev inside : List Text → Text → Scan
inside tokens cur = record { tokens = tokens; cur = cur; quote = b'"'; in_token = true }

finished : (s : Scan) {tokens : List Text} → finish_scan s ≡ ok tokens → (flush s).tokens ≡ tokens
unfolding flush
finished s h = ground arith

-- The code points of the tokens all come from the line.
module _ (P : ℕ → Type 0) where
  record Made (s : Scan) : Type 0 where
    done : All (All P) s.tokens
    current : All P s.cur

  Made-if : {x y : Scan} (b : Bool) → Made x → Made y → Made (if b then x else y)
  Made-if true mx my = mx
  Made-if false mx my = my

  flush-Made : (s : Scan) → Made s → Made (flush s)
  unfolding flush
  flush-Made s m =
      Made-if s.in_token
        (record { done = All-snoc (All P) s.tokens s.cur m.done m.current; current = tt }) m

  scan_rune-Made : (r : ℕ) (s : Scan) → P r → Made s → Made (scan_rune r s)
  unfolding scan_rune
  scan_rune-Made r s p m = Made-if (ltb 0 s.quote) (Made-if (r == s.quote) kept grown) (
      Made-if (r == b'\'' || r == b'"') kept (Made-if (r == b' ' || r == 9) (flush-Made s m) grown))
    where
      kept : {q : ℕ} {i : Bool} → Made (record s { quote = q; in_token = i })
      kept = record { done = m.done; current = m.current }

      grown : {i : Bool} → Made (record s { in_token = i; cur = s.cur ++ r ∷ [] })
      grown = record { done = m.done; current = All-snoc P s.cur r m.current p }

  scan-Made : (t : Text) (s : Scan) → All P t → Made s → Made (scan t s)
  unfolding scan
  scan-Made [] s h m = m
  scan-Made (r ∷ t) s h m = scan-Made t (scan_rune r s) h.1 (scan_rune-Made r s h.0 m)

  -- Whatever holds of every code point of a line holds of every code point of its tokens.
  pub split_command-All :
      (t : Text) (tokens : List Text) → All P t → split_command t ≡ ok tokens → All (All P) tokens
  unfolding split_command
  split_command-All t tokens h e =
      let s = scan t start in
      subst (All (All P)) (finished s e)
        (flush-Made s (scan-Made t start h (record { done = tt; current = tt }))).done

-- ===== src/Api/RateLimit.antt =====
-- api/middleware_ratelimit.go: a fixed window for each key. The lock makes `allow` one step; the two
-- readings of the clock in it are arguments, in nanoseconds.
pub mod Quota
use matrix_runtime.Common.{
  ℕ, ◌+◌, ◌-◌, ◌*◌, ◌/◌, Bool, true, false, not, ◌&&◌, ◌||◌, List, [], ◌∷◌, Option, none, some,
  length, ltb, leb, if◌then◌else◌, Text, codes,
}
use matrix_runtime.Common.Int.{ℤ, pos, is_positive, minus, add_int, quotient}
use matrix_runtime.Common.Strings.{eq_text, has_prefix}
use matrix_runtime.Common.Dict.{Dict, lookup, insert, retain}
use matrix_runtime.Security.Limits.{second}

pub record Window : Type 0 where
  pub count : ℕ
  pub reset : ℕ

pub record Limiter : Type 0 where
  pub limit : ℕ
  pub window : ℕ
  pub hits : Dict Window

unfoldable pub new_limiter : ℕ → Limiter
new_limiter rpm = record { limit = rpm; window = 60 * second; hits = [] }

abbrev pub max_entries : ℕ
max_entries = 4096

abbrev pub evicted : ℕ → Dict Window → Dict Window
evicted now hits =
    if ltb max_entries (length hits) then retain (λ k w. not (ltb w.reset now)) hits else hits

-- A window is opened with this request, and stale ones are dropped where there are many.
unfoldable pub open_window : Text → ℕ → Limiter → Limiter
open_window key now rl = record rl {
  hits = evicted now (insert key (record { count = 1; reset = now + rl.window }) rl.hits);
}

-- Whether the request is permitted, and how long until the window resets, with the limiter after it.
-- `time.Until` reads the clock again, when the window may have passed.
abbrev pub decide : Option Window → Text → ℕ → ℕ → Limiter → Bool × ℤ × Limiter
unfolding open_window
decide none key now later rl = (true, pos 0, open_window key now rl)
decide (some w) key now later rl =
    if ltb w.reset now
    then (true, pos 0, open_window key now rl)
    else if leb rl.limit w.count
    then (false, minus w.reset later, rl)
    else (true, pos 0, record rl { hits = insert key (record w { count = w.count + 1 }) rl.hits })

unfoldable pub allow : Text → ℕ → ℕ → Limiter → Bool × ℤ × Limiter
unfolding open_window
allow key now later rl = decide (lookup key rl.hits) key now later rl

-- Whether a path and a method are limited at all.
unfoldable pub rate_limited : Text → Text → Bool
rate_limited path method =
    has_prefix path (codes "/v1/")
    && not (eq_text method (codes "GET") || eq_text method (codes "HEAD"))

pub data Verdict : Type 0 where
  forward : Verdict
  too_many : ℤ → Verdict  -- the seconds of Retry-After

abbrev pub verdict : Bool → ℤ → Verdict
verdict true retry = forward
verdict false retry = too_many (add_int 1 (quotient retry second))

-- withRateLimit: no limiter exists where the configured rate is not positive.
unfoldable pub with_rate_limit : ℤ → Text → Text → Text → ℕ → ℕ → Limiter → Verdict × Limiter
with_rate_limit rpm path method client now later rl =
    if is_positive rpm && rate_limited path method
    then (let (ok, retry, rl') = allow client now later rl in (verdict ok retry, rl'))
    else (forward, rl)

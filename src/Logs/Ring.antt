-- ===== src/Logs/Ring.antt =====
-- internal/logs/ring.go: a buffer that keeps the most recent bytes. Its mutex makes each method
-- one step, so a method is a function on the buffer.
pub mod Suffix
use matrix_runtime.Common.{ℕ, ◌-◌, ◌*◌, List, [], ◌++◌, length, drop, ltb, leb, if◌then◌else◌}

pub record Ring : Type 0 where
  pub buf : List ℕ  -- bytes
  pub limit : ℕ

-- `limit <= 0` selects one megabyte; a negative limit is given as 0.
unfoldable pub new_ring : ℕ → Ring
new_ring limit = record { buf = []; limit = if leb limit 0 then 1024 * 1024 else limit }

unfoldable pub write : List ℕ → Ring → Ring
write p r =
    let buf = r.buf ++ p in
    if ltb r.limit (length buf)
    then record r { buf = drop (length buf - r.limit) buf }
    else record r { buf = buf }

-- What `String` returns.
abbrev pub contents : Ring → List ℕ
contents r = r.buf

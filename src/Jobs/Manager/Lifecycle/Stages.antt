-- ===== src/Jobs/Manager/Lifecycle/Stages.antt =====
-- internal/jobs/manager.go: `finish` has at most seven steps.
use matrix_runtime.Common.{ℕ, suc, ◌≤◌, Bool, true, false, arith}
use matrix_runtime.Jobs.Manager.{
  Phase, waiting, running, finishing, releasing, done, Stage, leaving, clearing, choosing,
  recording, failing, telling, closing, by_deadline, by_cancel, by_error, by_success, next_phase,
  after_recording, Context,
}

-- How many steps of `finish` are left.
abbrev pub stages_left : Stage → ℕ
stages_left (leaving err) = 7
stages_left (clearing err) = 6
stages_left (choosing err) = 5
stages_left (recording o) = 4
stages_left (failing err) = 3
stages_left (telling o) = 2
stages_left closing = 1

-- The goroutine is in `finish` with so many steps left, or past it.
abbrev pub IsLeft : ℕ → Phase → Type 0
IsLeft n (finishing slot s) = stages_left s ≤ n
IsLeft n waiting = ⊥
IsLeft n running = ⊥
IsLeft n releasing = Unit
IsLeft n done = Unit

pub next_phase-IsLeft :
    (n : ℕ) (c : Context) (slot : Bool) (s : Stage)
    → stages_left s ≤ suc n
    → IsLeft n (next_phase c slot s)
unfolding next_phase after_recording
next_phase-IsLeft n c slot (leaving err) h = omega (arith, h)
next_phase-IsLeft n c slot (clearing err) h = omega (arith, h)
next_phase-IsLeft n c slot (choosing err) h = omega (arith, h)
next_phase-IsLeft n c slot (recording by_deadline) h = omega (arith, h)
next_phase-IsLeft n c slot (recording by_cancel) h = omega (arith, h)
next_phase-IsLeft n c slot (recording (by_error err)) h = omega (arith, h)
next_phase-IsLeft n c slot (recording by_success) h = omega (arith, h)
next_phase-IsLeft n c slot (failing err) h = omega (arith, h)
next_phase-IsLeft n c slot (telling o) h = omega (arith, h)
next_phase-IsLeft n c true closing h = tt
next_phase-IsLeft n c false closing h = tt

-- A step is left as long as the goroutine is in `finish`.
pub some_left : (s : Stage) → stages_left s ≤ 0 → ⊥
some_left (leaving err) h = omega (arith, h)
some_left (clearing err) h = omega (arith, h)
some_left (choosing err) h = omega (arith, h)
some_left (recording o) h = omega (arith, h)
some_left (failing err) h = omega (arith, h)
some_left (telling o) h = omega (arith, h)
some_left closing h = omega (arith, h)

pub all_left : (s : Stage) → stages_left s ≤ 7
all_left (leaving err) = omega arith
all_left (clearing err) = omega arith
all_left (choosing err) = omega arith
all_left (recording o) = omega arith
all_left (failing err) = omega arith
all_left (telling o) = omega arith
all_left closing = omega arith

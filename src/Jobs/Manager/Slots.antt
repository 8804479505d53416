-- ===== src/Jobs/Manager/Slots.antt =====
-- The semaphore: slots are neither lost nor invented, and never more than configured.
use matrix_runtime.Common.{
  subst, if-intro, ℕ, ◌+◌, ◌≤◌, ◌≡◌, refl, Bool, true, false, ◌&&◌, List, [], ◌∷◌, Option, none,
  some, arith, ltb, Text, codes, ◌∙◌, ap, sym,
}
use matrix_runtime.Common.Dict.{Dict, lookup, insert, count_values, has, IsUnique}
use matrix_runtime.Common.Dict.Laws.{bit, counted, count-insert, holder_counted, insert-IsUnique}
use matrix_runtime.Common.Int.{pos_part}
use matrix_runtime.Config.{Config}
use matrix_runtime.Jobs.Registry.{purge_terminal_before}
use matrix_runtime.Jobs.Manager.{
  Manager, Worker, Phase, waiting, running, finishing, releasing, done, Stage, leaving, clearing,
  choosing, recording, failing, telling, closing, next_phase, Context, canceled, deadline_exceeded,
  CreateRequest, create, start_worker, capacity, empty_manager, update_job, remove_job_dirs,
}
use matrix_runtime.Jobs.Manager.Cases.{create_cases, on_worker_cases, cancel_cases, cleanup_cases}
use matrix_runtime.Jobs.Manager.Steps.{
  Action, creating, acquiring, abandoning, handling, returning, advancing, releasing_slot,
  cancelling, expiring, linking, shutting_down, cleaning, perform, IsFresh, Run, Reach, start, next,
  acquire, abandon, return, release, handle, stop_context, shutdown, stop_all, sweep_jobs,
  sweep_logs, remove_each, take_slot, give_slot, enter, advance, advance_at, finish_step,
  is_waiting, is_running, is_done, apply_effect, is_releasing, stopped, Effect,
}

-- The goroutines between `m.sem <- struct{}{}` and `<-m.sem`.
abbrev pub holds_slot : Worker → Bool
holds_slot w = elim w.phase [
  | running ↦ true
  | finishing slot s ↦ slot
  | releasing ↦ true
  | waiting ↦ false
  | done ↦ false
]

pub record HasSlots (m : Manager) : Type 0 where
  pub unique : IsUnique m.workers
  pub counted_slots : m.used ≡ count_values holds_slot m.workers
  pub bounded : m.used ≤ capacity m

-- The invariant reads three fields only.
same_slots :
    (m m' : Manager)
    → HasSlots m
    → m'.workers ≡ m.workers
    → m'.used ≡ m.used
    → m'.config ≡ m.config
    → HasSlots m'
same_slots m m' h w u c = record {
  unique = subst IsUnique (sym w) h.unique;
  counted_slots = u ∙ h.counted_slots ∙ ap (count_values holds_slot) (sym w);
  bounded = rw (u, c) h.bounded;
}

-- A step on one goroutine: the count moves by what the worker held and holds.
set_worker_slots :
    (id : Text) (w v : Worker) (m m' : Manager)
    → HasSlots m
    → lookup id m.workers ≡ some w
    → m'.workers ≡ insert id v m.workers
    → m'.config ≡ m.config
    → m'.used + bit (holds_slot w) ≡ m.used + bit (holds_slot v)
    → m'.used ≤ capacity m
    → HasSlots m'
set_worker_slots id w v m m' h e k c b u = record {
  unique = subst IsUnique (sym k) (insert-IsUnique id v m.workers h.unique);
  counted_slots =
      balance m'.used m.used _ _ _ _ b h.counted_slots (
        ap (λ o. count_values holds_slot (insert id v m.workers) + counted holds_slot o) (sym e)
        ∙ count-insert holds_slot id v m.workers)
      ∙ ap (count_values holds_slot) (sym k);
  bounded = rw c u;
}
  where
    balance : (u' u n n' a b : ℕ) → u' + a ≡ u + b → u ≡ n → n' + a ≡ n + b → u' ≡ n'
    balance u' u n n' a b p q r = omega arith

module _ (id : Text) (w : Worker) (m : Manager) (h : HasSlots m)
    (e : lookup id m.workers ≡ some w) where
  take_slot-HasSlots :
      (is_waiting w.phase && ltb m.used (capacity m)) ≡ true → HasSlots (take_slot id w m)
  unfolding take_slot
  take_slot-HasSlots g =
      set_worker_slots id w (record w { phase = running }) m _ h e refl refl (ground arith)
        (ground arith)

  acquire-HasSlots : HasSlots (acquire id w m)
  unfolding acquire
  acquire-HasSlots =
      if-intro HasSlots (is_waiting w.phase && ltb m.used (capacity m)) {x = take_slot id w m}
        take_slot-HasSlots (λ g. h)

  -- A step that keeps the slot, or keeps none.
  held_slots :
      (v : Worker) (m' : Manager)
      → m'.workers ≡ insert id v m.workers
      → m'.config ≡ m.config
      → m'.used ≡ m.used
      → holds_slot w ≡ holds_slot v
      → HasSlots m'
  held_slots v m' ws c u k =
      set_worker_slots id w v m m' h e ws c (ground (arith, u, k)) (ground (arith, u, h.bounded))

  abandon-HasSlots : HasSlots (abandon id w m)
  unfolding abandon
  abandon-HasSlots =
      let p = finishing false (leaving (some (codes "cancelled before start"))) in
      if-intro HasSlots (is_waiting w.phase && is_done w.ctx) {x = enter p id w m}
        (λ g.
          unfold enter in
          held_slots (record w { phase = p }) (enter p id w m) refl refl refl (ground arith))
        (λ g. h)

  return-HasSlots : (err : Option Text) → HasSlots (return err id w m)
  unfolding return
  return-HasSlots err =
      let p = finishing true (leaving err) in
      if-intro HasSlots (is_running w.phase) {x = enter p id w m}
        (λ g.
          unfold enter in
          held_slots (record w { phase = p }) (enter p id w m) refl refl refl (ground arith))
        (λ g. h)

  holds_slot-next_phase :
      (c : Context) (slot : Bool) (s : Stage)
      → slot ≡ holds_slot (record { phase = next_phase c slot s; ctx = c })
  unfolding next_phase
  holds_slot-next_phase c slot (leaving err) = refl
  holds_slot-next_phase c slot (clearing err) = refl
  holds_slot-next_phase c slot (choosing err) = refl
  holds_slot-next_phase c slot (recording o) = refl
  holds_slot-next_phase c slot (failing err) = refl
  holds_slot-next_phase c slot (telling o) = refl
  holds_slot-next_phase c true closing = refl
  holds_slot-next_phase c false closing = refl

  advance-HasSlots : HasSlots (advance id w m)
  unfolding advance
  advance-HasSlots = go w.phase refl
    where
      go : (p : Phase) → w.phase ≡ p → HasSlots (advance_at p id w m)
      go waiting q = h
      go running q = h
      go (finishing slot s) q =
          unfold finish_step in
          held_slots (record w { phase = next_phase w.ctx slot s }) (finish_step slot s id w m) refl
            refl refl
            (ap (λ p. holds_slot (record { phase = p; ctx = w.ctx })) q
              ∙ holds_slot-next_phase w.ctx slot s)
      go releasing q = h
      go done q = h

  give_slot-HasSlots : is_releasing w.phase ≡ true → HasSlots (give_slot id w m)
  unfolding give_slot
  give_slot-HasSlots g =
      set_worker_slots id w (record { phase = done; ctx = stopped canceled w.ctx }) m _ h e refl
        refl (ground (arith, h.counted_slots, holder_counted holds_slot id w m.workers e))
        (omega (arith, h.bounded))

  release-HasSlots : HasSlots (release id w m)
  unfolding release
  release-HasSlots =
      if-intro HasSlots (is_releasing w.phase) {x = give_slot id w m} give_slot-HasSlots (λ g. h)

  stop_context-HasSlots : (why : Context) → HasSlots (stop_context why id w m)
  unfolding stop_context
  stop_context-HasSlots why =
      set_worker_slots id w (record w { ctx = stopped why w.ctx }) m _ h e refl refl refl h.bounded

  handle-HasSlots : (x : Effect) → HasSlots (handle x id w m)
  unfolding handle
  handle-HasSlots x =
      if-intro HasSlots (is_running w.phase) {x = update_job id (apply_effect x) m}
        (λ g. unfold update_job in same_slots m (update_job id (apply_effect x) m) h refl refl refl)
        (λ g. h)

started-HasSlots :
    (req : CreateRequest) (now : ℕ) (id : Text) (m : Manager)
    → HasSlots m
    → lookup id m.workers ≡ none
    → HasSlots (start_worker req now id m).1
unfolding start_worker
started-HasSlots req now id m h e = record {
  unique = insert-IsUnique id _ m.workers h.unique;
  counted_slots = ground (
    arith,
    h.counted_slots,
    count-insert holds_slot id (record { phase = waiting; ctx = m.base }) m.workers,
  );
  bounded = h.bounded;
}

create-HasSlots :
    (req : CreateRequest) (now : ℕ) (id : Text) (m : Manager)
    → HasSlots m
    → lookup id m.workers ≡ none
    → HasSlots (create req now id m).1
create-HasSlots req now id m h e =
    create_cases HasSlots req now id m h (started-HasSlots req now id m h e)

stop_all-same :
    (why : Context) (ws : Dict Worker)
    → (count_values holds_slot (stop_all why ws) ≡ count_values holds_slot ws)
      × (IsUnique ws → IsUnique (stop_all why ws))
      × ((k : Text) → has k (stop_all why ws) ≡ has k ws)
unfolding stop_all count_values lookup
stop_all-same why [] = (refl, (λ u. u), λ k. refl)
stop_all-same why ((i, w) ∷ ws) =
    let (c, u, k) = stop_all-same why ws in
    (ground arith, (λ v. (k i ∙ v.0, u v.1)), λ j. ground (arith, k j))

shutdown-HasSlots : (m : Manager) → HasSlots m → HasSlots (shutdown m)
unfolding shutdown
shutdown-HasSlots m h =
    let (c, u, k) = stop_all-same canceled m.workers in
    record { unique = u h.unique; counted_slots = h.counted_slots ∙ sym c; bounded = h.bounded }

-- A sweep does not touch the goroutines, the slots or the configuration.
record Same (m m' : Manager) : Type 0 where
  workers : m'.workers ≡ m.workers
  used : m'.used ≡ m.used
  config : m'.config ≡ m.config

remove_each-Same : (ids : List Text) (m : Manager) → Same m (remove_each ids m)
unfolding remove_job_dirs
remove_each-Same [] m = record { workers = refl; used = refl; config = refl }
remove_each-Same (id ∷ ids) m =
    let s = remove_each-Same ids (remove_job_dirs id m) in
    record { workers = s.workers; used = s.used; config = s.config }

sweep_jobs-HasSlots : (cutoff : ℕ) (m : Manager) → HasSlots m → HasSlots (sweep_jobs cutoff m)
unfolding sweep_jobs
sweep_jobs-HasSlots cutoff m h =
    let (removed, registry) = purge_terminal_before cutoff m.registry in
    let s = remove_each-Same removed (record m { registry = registry }) in
    same_slots m _ h s.workers s.used s.config

sweep_logs-HasSlots : (cutoff : ℕ) (m : Manager) → HasSlots m → HasSlots (sweep_logs cutoff m)
unfolding sweep_logs
sweep_logs-HasSlots cutoff m h = same_slots m _ h refl refl refl

perform-HasSlots : (a : Action) (m : Manager) → IsFresh a m → HasSlots m → HasSlots (perform a m)
unfolding perform
perform-HasSlots (creating req now id) m f h = create-HasSlots req now id m h f
perform-HasSlots (acquiring id) m f h =
    on_worker_cases HasSlots id m (acquire id) h (λ w e. acquire-HasSlots id w m h e)
perform-HasSlots (abandoning id) m f h =
    on_worker_cases HasSlots id m (abandon id) h (λ w e. abandon-HasSlots id w m h e)
perform-HasSlots (handling x id) m f h =
    on_worker_cases HasSlots id m (handle x id) h (λ w e. handle-HasSlots id w m h e x)
perform-HasSlots (returning err id) m f h =
    on_worker_cases HasSlots id m (return err id) h (λ w e. return-HasSlots id w m h e err)
perform-HasSlots (advancing id) m f h =
    on_worker_cases HasSlots id m (advance id) h (λ w e. advance-HasSlots id w m h e)
perform-HasSlots (releasing_slot id) m f h =
    on_worker_cases HasSlots id m (release id) h (λ w e. release-HasSlots id w m h e)
perform-HasSlots (cancelling id) m f h =
    cancel_cases HasSlots id m h (λ w e. stop_context-HasSlots id w m h e canceled)
perform-HasSlots (expiring id) m f h =
    on_worker_cases HasSlots id m (stop_context deadline_exceeded id) h
      (λ w e. stop_context-HasSlots id w m h e deadline_exceeded)
perform-HasSlots (linking sid id) m f h = same_slots m _ h refl refl refl
perform-HasSlots shutting_down m f h = shutdown-HasSlots m h
perform-HasSlots (cleaning now) m f h =
    cleanup_cases HasSlots now m h sweep_jobs-HasSlots sweep_logs-HasSlots

Run-HasSlots : {m n : Manager} → HasSlots m → Run m n → HasSlots n
Run-HasSlots h start = h
Run-HasSlots h (next {n} r a f) = perform-HasSlots a n f (Run-HasSlots h r)

empty_manager-HasSlots : (cfg : Config) → HasSlots (empty_manager cfg)
unfolding empty_manager count_values
empty_manager-HasSlots cfg = record { unique = tt; counted_slots = refl; bounded = omega arith }

-- In every manager that a new one can become, by any interleaving of the goroutines, handlers,
-- cancellations and sweeps, the slots in use are exactly those of the goroutines between acquiring
-- and releasing, and there are at most as many as the configured concurrency.
pub Reach-slots :
    (cfg : Config) {m : Manager}
    → Reach cfg m
    → (m.used ≡ count_values holds_slot m.workers)
      × (m.used ≤ pos_part m.config.max_concurrent_jobs)
Reach-slots cfg r =
    let h = Run-HasSlots (empty_manager-HasSlots cfg) r.1 in (h.counted_slots, h.bounded)

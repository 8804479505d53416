-- ===== src/Cache/Locks.antt =====
-- internal/cache/locks.go: who holds the lock of a model.
use matrix_runtime.Common.{
  ℕ, ◌≡◌, ◌∙◌, not, ◌&&◌, Option, none, some, is_some, arith, Text, if◌then◌else◌,
}
use matrix_runtime.Common.Strings.{eq_text, eq_text_iff}
use matrix_runtime.Common.Dict.{lookup, IsUnique}
use matrix_runtime.Common.Dict.Laws.{lookup-insert, lookup-retain, retained}
use matrix_runtime.Cache.{
  Layout, Lock, Locks, locked, acquire_model_lock, release_model_lock, lock_path,
}

-- Where the disk does not fail and one attempt comes after the other, acquiring a model's lock is refused exactly while the lock is held, and then no
-- lock changes; else it is held from then on, with the owner and the time in its file, and every other lock is as
-- it was. Releasing it takes it away and leaves every other lock as it was.
pub model_lock_lem :
    (l : Layout) (namespace name owner : Text) (now : ℕ) (ls : Locks) (k : Text)
    → IsUnique ls
    → let path = lock_path l namespace name in
      let held = is_some (lookup path ls) in
      let (e, ls') = acquire_model_lock none none l namespace name owner now ls in
      (e ≡ (if held then some locked else none))
      × (lookup k ls' ≡ (
          if not held && eq_text path k
          then some (record { owner = owner; acquired = now })
          else lookup k ls))
      × (lookup k (release_model_lock l namespace name ls)
          ≡ (if eq_text path k then none else lookup k ls))
unfolding acquire_model_lock release_model_lock
model_lock_lem l namespace name owner now ls k u =
    let path = lock_path l namespace name in
    (
      ground arith,
      ground (arith, lookup-insert path k (record { owner = owner; acquired = now }) ls),
      lookup-retain (λ p lock. not (eq_text p path)) k ls u ∙ kept (lookup k ls),
    )
  where
    kept :
        (o : Option Lock)
        → retained (λ lock. not (eq_text k (lock_path l namespace name))) o
          ≡ (if eq_text (lock_path l namespace name) k then none else o)
    kept none = ground arith
    kept (some lock) = ground (
      arith,
      eq_text_iff k (lock_path l namespace name),
      eq_text_iff (lock_path l namespace name) k,
    )

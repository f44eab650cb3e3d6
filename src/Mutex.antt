-- ===== src/Mutex.antt =====
-- deps/common/lang/mutex.cpp: RecursiveSharedMutex, the lock of a frame, as it is built with
-- CONCURRENCY. Each call runs under the mutex inside, so that it is one step; `none` is a call
-- that waits, whose loop tests again when it is woken.
pub mod Holders
pub mod Held
pub mod Balance
pub mod Exclusion
mod Tests
use miniob_basic.Base.{ℕ, Bool, true, false, ◌&&◌, ◌||◌, Option, none, some, ◌==◌, if◌then◌else◌}
use miniob_basic.Base.Int.{ℤ, pos, inc, dec, is_pos, eq_ℤ, leb_ℤ}

-- A thread is a number, `none` the `thread::id()` of no thread.
pub record RecursiveSharedMutex : Type 0 where
  pub shared_lock_count : ℤ
  pub exclusive_lock_count : ℤ
  pub recursive_owner : Option ℕ
  pub recursive_count : ℤ

abbrev pub recursive_shared_mutex : RecursiveSharedMutex
recursive_shared_mutex = record {
  shared_lock_count = pos 0;
  exclusive_lock_count = pos 0;
  recursive_owner = none;
  recursive_count = pos 0;
}

abbrev pub is_owner : RecursiveSharedMutex → ℕ → Bool
is_owner m this_thread = elim m.recursive_owner [ none ↦ false | some owner ↦ owner == this_thread ]

unfoldable pub lock_shared : RecursiveSharedMutex → Option RecursiveSharedMutex
lock_shared m =
    if is_pos m.exclusive_lock_count
    then none
    else some (record m { shared_lock_count = inc m.shared_lock_count })

unfoldable pub try_lock_shared : RecursiveSharedMutex → Bool × RecursiveSharedMutex
try_lock_shared m =
    if eq_ℤ m.exclusive_lock_count (pos 0)
    then (true, record m { shared_lock_count = inc m.shared_lock_count })
    else (false, m)

unfoldable pub unlock_shared : RecursiveSharedMutex → RecursiveSharedMutex
unlock_shared m = record m { shared_lock_count = dec m.shared_lock_count }

unfoldable pub lock : RecursiveSharedMutex → ℕ → Option RecursiveSharedMutex
lock m this_thread =
    if is_pos m.shared_lock_count || is_pos m.exclusive_lock_count
    then (if is_owner m this_thread
        then some (record m { recursive_count = inc m.recursive_count })
        else none)
    else some (record m {
      recursive_owner = some this_thread;
      recursive_count = pos 1;
      exclusive_lock_count = inc m.exclusive_lock_count;
    })

unfoldable pub unlock : RecursiveSharedMutex → ℕ → RecursiveSharedMutex
unlock m this_thread =
    if is_owner m this_thread && is_pos (dec m.recursive_count)
    then record m { recursive_count = dec m.recursive_count }
    else record m {
      recursive_owner = none;
      recursive_count = pos 0;
      exclusive_lock_count = dec m.exclusive_lock_count;
    }

-- ===== src/Frame.antt =====
-- src/observer/storage/buffer/frame.cpp: pins and latches of a page in memory, as built with DEBUG,
-- where an `ASSERT` stops the program, and with CONCURRENCY. `xid` is the session that asks,
-- `this_thread` the thread that runs it. A call that waits is modelled as one that is made again
-- later, while the code has its `ASSERT`s behind it and goes on inside the lock.
pub mod Latches
pub mod Exclusive
mod Tests
use miniob_basic.Base.{
  ℕ, zero, suc, ◌+◌, Bool, true, false, not, Option, none, some, List, [], ◌∷◌, ltb, ◌==◌,
  if◌then◌else◌,
}
use miniob_basic.Base.Int.{ℤ, pos, inc, dec, is_pos, eq_ℤ}
use miniob_basic.Mutex.{
  RecursiveSharedMutex, lock_shared, try_lock_shared, unlock_shared, lock, unlock,
}

-- How a call ends: an `ASSERT` stops it, it waits for the lock, or it is done.
pub data Outcome {ℓ} (A : Type ℓ) : Type ℓ where
  stopped : Outcome A
  waits : Outcome A
  done : A → Outcome A

-- `std::unordered_map<intptr_t, int>`: the number of times that a session holds the latch.
abbrev pub find : ℕ → List (ℕ × ℕ) → Option ℕ
find xid [] = none
find xid ((x, n) ∷ lockers) = if x == xid then some n else find xid lockers

-- `++read_lockers_[xid]`
abbrev pub count_up : ℕ → List (ℕ × ℕ) → List (ℕ × ℕ)
count_up xid [] = (xid, 1) ∷ []
count_up xid ((x, n) ∷ lockers) =
    if x == xid then (x, n + 1) ∷ lockers else (x, n) ∷ count_up xid lockers

-- `read_lockers_.erase(xid)`
abbrev pub erase : ℕ → List (ℕ × ℕ) → List (ℕ × ℕ)
erase xid [] = []
erase xid ((x, n) ∷ lockers) = if x == xid then lockers else (x, n) ∷ erase xid lockers

abbrev pub is_empty : List (ℕ × ℕ) → Bool
is_empty [] = true
is_empty (x ∷ lockers) = false

-- The session 0 is no session. The page and the time of access, which have accessors only, are
-- left out.
pub record Frame : Type 0 where
  pub dirty : Bool
  pub pin_count : ℤ
  pub mutex : RecursiveSharedMutex
  pub write_locker : ℕ
  pub write_recursive_count : ℤ
  pub read_lockers : List (ℕ × ℕ)

abbrev pub mark_dirty : Frame → Frame
mark_dirty f = record f { dirty = true }

abbrev pub clear_dirty : Frame → Frame
clear_dirty f = record f { dirty = false }

abbrev pub can_purge : Frame → Bool
can_purge f = eq_ℤ f.pin_count (pos 0)

pub write_latch : Frame → ℕ → ℕ → Outcome Frame
write_latch f xid this_thread =
    if not (is_pos f.pin_count) then stopped else elim (find xid f.read_lockers) [
      | some n ↦ stopped
      | none ↦ elim (lock f.mutex this_thread) [
        | none ↦ waits
        | some m ↦ done (record f {
          mutex = m;
          write_locker = xid;
          write_recursive_count = inc f.write_recursive_count;
        })
      ]
    ]

pub write_unlatch : Frame → ℕ → ℕ → Outcome Frame
write_unlatch f xid this_thread =
    if not (is_pos f.pin_count)
    then stopped
    else if not (f.write_locker == xid)
    then stopped
    else done (record f {
      mutex = unlock f.mutex this_thread;
      write_recursive_count = dec f.write_recursive_count;
      write_locker = if eq_ℤ (dec f.write_recursive_count) (pos 0) then 0 else f.write_locker;
    })

pub read_latch : Frame → ℕ → Outcome Frame
read_latch f xid =
    if not (is_pos f.pin_count)
    then stopped
    else if xid == f.write_locker
    then stopped
    else elim (lock_shared f.mutex) [
      | none ↦ waits
      | some m ↦ done (record f { mutex = m; read_lockers = count_up xid f.read_lockers })
    ]

pub try_read_latch : Frame → ℕ → Outcome (Bool × Frame)
try_read_latch f xid =
    if not (is_pos f.pin_count)
    then stopped
    else if xid == f.write_locker
    then stopped
    else let (ret, m) = try_lock_shared f.mutex in
      if ret
      then done (true, record f { mutex = m; read_lockers = count_up xid f.read_lockers })
      else done (false, record f { mutex = m })

-- The entry of a session that holds the latch once is erased; no other entry is changed.
pub read_unlatch : Frame → ℕ → Outcome Frame
read_unlatch f xid = if not (is_pos f.pin_count) then stopped else elim (find xid f.read_lockers) [
  | none ↦ stopped
  | some recursive_count ↦
      if not (ltb 0 recursive_count)
      then stopped
      else done (record f {
        mutex = unlock_shared f.mutex;
        read_lockers = if recursive_count == 1 then erase xid f.read_lockers else f.read_lockers;
      })
]

unfoldable pub pin : Frame → Frame
pin f = record f { pin_count = inc f.pin_count }

unfoldable pub unpin : Frame → Outcome (ℤ × Frame)
unpin f =
    let pin_count = dec f.pin_count in
    if not (is_pos f.pin_count)
    then stopped
    else if eq_ℤ pin_count (pos 0)
    then (if not (f.write_locker == 0)
        then stopped
        else if not (is_empty f.read_lockers)
        then stopped
        else done (pin_count, record f { pin_count = pin_count }))
    else done (pin_count, record f { pin_count = pin_count })

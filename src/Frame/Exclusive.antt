-- ===== src/Frame/Exclusive.antt =====
-- The write latch of a frame.
use miniob_basic.Base.{ℕ, suc, ◌≡◌, ◌≢◌, refl, sym, Bool, some, [], ==_iff, ==_ne}
use miniob_basic.Base.Int.{pos}
use miniob_basic.Mutex.{recursive_shared_mutex, lock, unlock, lock_shared}
use miniob_basic.Frame.{Frame, stopped, waits, done, write_latch, write_unlatch, read_latch}

-- A frame that is pinned and that no one has latched.
abbrev pub unlatched : Bool → ℕ → Frame
unlatched dirty pins = record {
  dirty = dirty;
  pin_count = pos (suc pins);
  mutex = recursive_shared_mutex;
  write_locker = 0;
  write_recursive_count = pos 0;
  read_lockers = [];
}

-- On a pinned frame without latches a session gets the write latch; until it gives it back another
-- session waits for either latch in another thread, and the program is stopped when the session
-- itself asks for the read latch, or another one gives back the write latch; giving it back leaves
-- the frame as it was.
pub write_latch-alone :
    (dirty : Bool) (pins xid other thread other_thread : ℕ)
    → xid ≢ other
    → thread ≢ other_thread
    → (f : Frame) × (write_latch (unlatched dirty pins) xid thread ≡ done f)
      × (write_latch f other other_thread ≡ waits)
      × (read_latch f other ≡ waits)
      × (read_latch f xid ≡ stopped)
      × (write_unlatch f other other_thread ≡ stopped)
      × (write_unlatch f xid thread ≡ done (unlatched dirty pins))
unfolding write_latch write_unlatch read_latch lock unlock lock_shared
write_latch-alone dirty pins xid other thread other_thread h c = (
  record (unlatched dirty pins) {
    mutex = record {
      shared_lock_count = pos 0;
      exclusive_lock_count = pos 1;
      recursive_owner = some thread;
      recursive_count = pos 1;
    };
    write_locker = xid;
    write_recursive_count = pos 1;
  },
  refl,
  rw (==_ne thread other_thread c) refl,
  rw (==_ne other xid (λ e. h (sym e))) refl,
  rw ((==_iff xid xid).1 refl) refl,
  rw (==_ne xid other h) refl,
  rw ((==_iff xid xid).1 refl, (==_iff thread thread).1 refl) refl,
)

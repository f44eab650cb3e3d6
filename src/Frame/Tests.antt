-- ===== src/Frame/Tests.antt =====
-- Sessions 3 and 4 at a frame with one pin.
use miniob_basic.Base.{ℕ, ◌≡◌, refl, true, [], ◌∷◌, arith}
use miniob_basic.Mutex.{lock_shared}
use miniob_basic.Mutex.Held.{shared_by}
use miniob_basic.Frame.{
  Frame, done, waits, stopped, read_latch, read_unlatch, write_latch, write_unlatch,
}
use miniob_basic.Frame.Latches.{read_unlatch-IsLeftover, IsLeftover}
use miniob_basic.Frame.Exclusive.{unlatched, write_latch-alone}

abbrev read_by : ℕ → Frame
read_by n = record (unlatched true 0) { mutex = shared_by n; read_lockers = (3, n) ∷ [] }

first_latch : read_latch (unlatched true 0) 3 ≡ done (read_by 1)
unfolding read_latch lock_shared
first_latch = refl

second_latch : read_latch (read_by 1) 3 ≡ done (read_by 2)
unfolding read_latch lock_shared
second_latch = refl

read_unlatch-IsLeftover_example :
    (f3 : Frame) × (f4 : Frame) × (read_unlatch (read_by 2) 3 ≡ done f3)
    × (read_unlatch f3 3 ≡ done f4)
    × IsLeftover (unlatched true 0) 3 f4
read_unlatch-IsLeftover_example =
    read_unlatch-IsLeftover (unlatched true 0) (read_by 1) (read_by 2) 3 refl first_latch
      second_latch

write_latch-alone_example :
    (f : Frame) × (write_latch (unlatched true 0) 3 7 ≡ done f)
    × (write_latch f 4 8 ≡ waits)
    × (read_latch f 4 ≡ waits)
    × (read_latch f 3 ≡ stopped)
    × (write_unlatch f 4 8 ≡ stopped)
    × (write_unlatch f 3 7 ≡ done (unlatched true 0))
write_latch-alone_example =
    write_latch-alone true 0 3 4 7 8 (λ e. omega (arith, e)) (λ e. omega (arith, e))

-- ===== src/RingBuffer.antt =====
-- src/observer/net/ring_buffer.cpp: the bytes on their way to a client. Sizes that a caller gives
-- may be negative; all others are kept between 0 and the capacity. An `int32_t &` that a call
-- does not assign is `none`.
pub mod Valid
pub mod Append
pub mod Write
pub mod Take
pub mod Read
mod Tests
use miniob_basic.Base.{
  ℕ, zero, suc, ◌+◌, ◌-◌, ◌%◌, Bool, true, false, ◌&&◌, Option, none, some, List, [], ◌++◌, ltb,
  leb, ◌==◌, if◌then◌else◌, length, min, drop, replicate,
}
use miniob_basic.Base.Int.{ℤ, pos, negsuc}
use miniob_basic.Memory.{memcpy, slice}
use miniob_basic.Rc.{Rc, success, invalid_argument, is_success}

pub record RingBuffer : Type 0 where
  pub buffer : List ℕ
  pub data_size : ℕ
  pub write_pos : ℕ

-- `RingBuffer(int32_t size)`
abbrev pub ring_buffer : ℕ → RingBuffer
ring_buffer size = record { buffer = replicate size 0; data_size = 0; write_pos = 0 }

abbrev pub capacity : RingBuffer → ℕ
capacity r = length r.buffer

abbrev pub remain : RingBuffer → ℕ
remain r = capacity r - r.data_size

-- `write_pos_ - size()` may be negative before the capacity is added.
abbrev pub read_pos : RingBuffer → ℕ
read_pos r = (r.write_pos + capacity r - r.data_size) % capacity r

-- `RingBuffer::buffer`: where the next bytes stand and how many of them in a row.
pub next_block : RingBuffer → ℕ × ℕ
next_block r = if r.data_size == 0 then (0, 0) else (
  read_pos r,
  if ltb (read_pos r) r.write_pos then r.write_pos - read_pos r else capacity r - read_pos r,
)

pub forward : RingBuffer → ℤ → Rc × RingBuffer
forward r (negsuc n) = (invalid_argument, r)
forward r (pos n) =
    if n == 0
    then (invalid_argument, r)
    else if ltb r.data_size n
    then (invalid_argument, r)
    else (success, record r { data_size = r.data_size - n })

-- One round of the loop of `read`: the bytes that it copies, and what is left.
pub read_round : RingBuffer → ℕ → Rc × List ℕ × ℕ × RingBuffer
read_round r want =
    let (at, tmp_size) = next_block r in
    let copy_size = min want tmp_size in
    let (rc, r') = forward r (pos copy_size) in (rc, slice copy_size r.buffer at, copy_size, r')

-- The loop of `read`, with fuel: `want` bytes are still asked for. A round copies a byte at least.
pub read_from : ℕ → RingBuffer → ℕ → List ℕ → Rc × List ℕ × RingBuffer
read_from zero r want out = (success, out, r)
read_from (suc fuel) r want out =
    let (rc, block, copied, r') = read_round r want in
    let rest = read_from fuel r' (want - copied) (out ++ block) in
    if ltb 0 want && ltb 0 r.data_size
    then (if is_success rc then rest else (rc, out ++ block, r'))
    else (success, out, r)

pub read : RingBuffer → ℤ → Rc × Option (List ℕ) × RingBuffer
read r (negsuc n) = (invalid_argument, none, r)
read r (pos n) = let (rc, out, r') = read_from (n + 1) r n [] in (rc, some out, r')

-- How many bytes a round of `write` may copy in a row.
pub write_room : RingBuffer → ℕ
write_room r =
    if read_pos r == r.write_pos && ltb 0 (remain r)
    then capacity r - r.write_pos
    else if leb (read_pos r) r.write_pos
    then capacity r - r.write_pos
    else read_pos r - r.write_pos

abbrev pub put_block : RingBuffer → List ℕ → ℕ → RingBuffer
put_block r source n = record {
  buffer = memcpy n r.buffer r.write_pos source;
  data_size = r.data_size + n;
  write_pos = (r.write_pos + n) % capacity r;
}

-- The loop of `write`, with fuel: `size` bytes in all, of which `done` are written.
pub write_from : ℕ → RingBuffer → List ℕ → ℕ → ℕ → ℕ × RingBuffer
write_from zero r source size done = (done, r)
write_from (suc fuel) r source size done =
    let copy_size = min (size - done) (write_room r) in
    let rest =
      write_from fuel (put_block r (drop done source) copy_size) source size (done + copy_size) in
    if ltb done size && ltb 0 (remain r)
    then (if copy_size == 0 then (done, r) else rest)
    else (done, r)

pub write : RingBuffer → List ℕ → ℤ → Rc × Option ℕ × RingBuffer
write r source (negsuc n) = (invalid_argument, none, r)
write r source (pos zero) = (success, some 0, r)
write r source (pos (suc n)) =
    let (written, r') = write_from (suc n) r source (suc n) 0 in (success, some written, r')

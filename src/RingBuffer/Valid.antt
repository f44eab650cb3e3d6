-- ===== src/RingBuffer/Valid.antt =====
-- The representation of a ring buffer, and the bytes that it holds.
use miniob_basic.Base.{
  ℕ, ◌+◌, ◌-◌, ◌%◌, ◌≤◌, ◌<◌, ◌≡◌, arith, get_or, length-replicate, dec_lt, ◌⊎◌, inl, inr,
}
use native.Mathlib.Nat.{mod-eq_of_lt, mod-eq-sub-mod}
use miniob_basic.RingBuffer.{RingBuffer, ring_buffer, capacity, read_pos}

pub record IsValid (r : RingBuffer) : Type 0 where
  pub write_in : r.write_pos < capacity r
  pub size_in : r.data_size ≤ capacity r

-- The byte at place `k` of the data, the oldest first.
abbrev pub byte_at : RingBuffer → ℕ → ℕ
byte_at r k = get_or r.buffer ((read_pos r + k) % capacity r) 0

-- A number under twice the modulus wraps once at most.
pub wrap : (a m : ℕ) → a < m + m → (a % m ≡ a) × (a < m) ⊎ (a % m + m ≡ a) × (m ≤ a)
wrap a m h = elim (dec_lt a m) [
  | yes c ↦ inl (mod-eq_of_lt c, c)
  | no c ↦ inr (
    omega (
      arith,
      mod-eq-sub-mod {n = a} {m = m} (omega arith),
      mod-eq_of_lt {n = a - m} {m = m} (omega arith),
    ),
    omega arith,
  )
]

-- Where reading starts: `data_size` places before the place to write at, round the end.
pub read_pos_lem :
    (r : RingBuffer)
    → IsValid r
    → (read_pos r < capacity r)
      × ((read_pos r + r.data_size ≡ r.write_pos)
          ⊎ (read_pos r + r.data_size ≡ r.write_pos + capacity r))
read_pos_lem r v =
    ground (arith, wrap (r.write_pos + capacity r - r.data_size) (capacity r) (omega arith))

-- A new ring buffer that can hold a byte is valid.
pub ring_buffer-IsValid : (size : ℕ) → 0 < size → IsValid (ring_buffer size)
ring_buffer-IsValid size h = record {
  write_in = omega (arith, length-replicate {A = ℕ} size 0);
  size_in = omega arith;
}

-- ===== src/Bitmap/Get.antt =====
-- Reading a bit back after `set_bit` and `clear_bit`.
use miniob_basic.Base.{
  ℕ, ◌+◌, ◌/◌, ◌%◌, ◌^◌, ◌-◌, ◌≤◌, ◌<◌, ◌≡◌, ◌≢◌, ap, ◌∙◌, Bool, true, false, arith, bit_or,
  bit_and, ◌==◌, if◌then◌else◌, length, get_or, set, length-set, get_or-set, ℕ_discrete,
}
use miniob_basic.Bitmap.{Bitmap, byte_at, bytes, test_bit, get_bit, set_bit, clear_bit}
use miniob_basic.Bitmap.Byte.{
  bit_or_byte, bit_and_byte, test_bit-bit_or, test_bit-bit_and, test_bit-blank,
}

-- All that a memory holds are bytes, and those of the bitmap are in it.
pub record IsValid (b : Bitmap) : Type 0 where
  pub byte : (i : ℕ) → get_or b.mem i 0 < 256
  pub inside : b.base + bytes b.size ≤ length b.mem

pub bytes_bound : (size index : ℕ) → index < size → index / 8 < bytes size
bytes_bound size index h = ground arith

module _ (b : Bitmap) (v : IsValid b) (index : ℕ) (h : index < b.size) where
  in_mem : b.base + index / 8 < length b.mem
  in_mem = omega (arith, bytes_bound b.size index h, v.inside)

  -- A byte that differs from the old one at `index` alone changes that bit alone.
  get_bit-write :
      (w j : ℕ) (r : Bool)
      → ((k : ℕ)
          → k < 8
          → test_bit w k ≡ (if index % 8 == k then r else test_bit (byte_at b (index / 8)) k))
      → get_bit (record b { mem = set b.mem (b.base + index / 8) w }) j
        ≡ (if index == j then r else get_bit b j)
  unfolding get_bit
  get_bit-write w j r e = elim (ℕ_discrete (index / 8) (j / 8)) [
    | yes s ↦ ground (
      arith,
      get_or-set b.mem (b.base + index / 8) (b.base + j / 8) w 0 in_mem,
      e (j % 8) (omega arith),
    )
    | no d ↦ ground (arith, get_or-set b.mem (b.base + index / 8) (b.base + j / 8) w 0 in_mem)
  ]

  write-IsValid : (w : ℕ) → w < 256 → IsValid (record b { mem = set b.mem (b.base + index / 8) w })
  write-IsValid w hw = record {
    byte = λ i. ground (arith, get_or-set b.mem (b.base + index / 8) i w 0 in_mem, v.byte i);
    inside = omega (arith, length-set b.mem (b.base + index / 8) w, v.inside);
  }

  -- Setting a bit sets that bit, changes no other, and keeps the bitmap valid.
  pub get_bit-set_bit :
      IsValid (set_bit b index)
      × ((j : ℕ) → get_bit (set_bit b index) j ≡ (if index == j then true else get_bit b j))
  unfolding set_bit
  get_bit-set_bit =
      let hi : index % 8 < 8 = omega arith in
      let hb : byte_at b (index / 8) < 256 = v.byte (b.base + index / 8) in
      let w = bit_or (byte_at b (index / 8)) (2 ^ (index % 8)) in
      (
        write-IsValid w (bit_or_byte (byte_at b (index / 8)) (index % 8) hb hi),
        λ j.
            get_bit-write w j true λ k hk.
              ground (arith, test_bit-bit_or (byte_at b (index / 8)) (index % 8) hb hi k hk),
      )

  -- Clearing a bit clears that bit, changes no other, and keeps the bitmap valid.
  pub get_bit-clear_bit :
      IsValid (clear_bit b index)
      × ((j : ℕ) → get_bit (clear_bit b index) j ≡ (if index == j then false else get_bit b j))
  unfolding clear_bit
  get_bit-clear_bit =
      let hi : index % 8 < 8 = omega arith in
      let hb : byte_at b (index / 8) < 256 = v.byte (b.base + index / 8) in
      let w = bit_and (byte_at b (index / 8)) (255 - 2 ^ (index % 8)) in
      (
        write-IsValid w (bit_and_byte (byte_at b (index / 8)) (index % 8) hb hi),
        λ j.
            get_bit-write w j false λ k hk.
              ground (arith, test_bit-bit_and (byte_at b (index / 8)) (index % 8) hb hi k hk),
      )

  -- Only the byte of the bit is written.
  pub set_bit_apart :
      (length (set_bit b index).mem ≡ length b.mem)
      × ((j : ℕ) → j ≢ b.base + index / 8 → get_or (set_bit b index).mem j 0 ≡ get_or b.mem j 0)
  unfolding set_bit
  set_bit_apart =
      let w = bit_or (byte_at b (index / 8)) (2 ^ (index % 8)) in
      (
        length-set b.mem (b.base + index / 8) w,
        λ j h. ground (arith, get_or-set b.mem (b.base + index / 8) j w 0 in_mem),
      )

  pub clear_bit_apart :
      (length (clear_bit b index).mem ≡ length b.mem)
      × ((j : ℕ) → j ≢ b.base + index / 8 → get_or (clear_bit b index).mem j 0 ≡ get_or b.mem j 0)
  unfolding clear_bit
  clear_bit_apart =
      let w = bit_and (byte_at b (index / 8)) (255 - 2 ^ (index % 8)) in
      (
        length-set b.mem (b.base + index / 8) w,
        λ j h. ground (arith, get_or-set b.mem (b.base + index / 8) j w 0 in_mem),
      )

-- A byte of zeros has no bit set.
pub get_bit-zero : (b : Bitmap) (index : ℕ) → byte_at b (index / 8) ≡ 0 → get_bit b index ≡ false
unfolding get_bit
get_bit-zero b index e =
    ap (λ w. test_bit w (index % 8)) e ∙ test_bit-blank (index % 8) (omega arith)

-- ===== src/Bitmap.antt =====
-- deps/common/lang/bitmap.cpp: a bitmap over bytes of memory. The pointer `bitmap_` is a memory,
-- a list of bytes, with the address of the bitmap's first byte in it; `char` is its bit pattern,
-- a number below 256, so the byte that C++ reads as -1 is 255. The result -1 is `none`.
mod Byte
pub mod Get
pub mod Search
pub mod Skip
mod Tests
use miniob_basic.Base.{
  ℕ, zero, suc, ◌+◌, ◌-◌, ◌*◌, ◌/◌, ◌%◌, ◌^◌, Bool, not, Option, none, some, List, bit_and, bit_or,
  ltb, ◌==◌, if◌then◌else◌, get_or, set,
}

-- `(byte & (1 << i)) != 0`
pub test_bit : ℕ → ℕ → Bool
test_bit byte i = not (bit_and byte (2 ^ i) == 0)

-- The loop of `find_first_zero`: `n` rounds are left, from bit `i` on.
find_zero_from : ℕ → ℕ → ℕ → Option ℕ
find_zero_from zero byte i = none
find_zero_from (suc n) byte i =
    let rest = find_zero_from n byte (i + 1) in if test_bit byte i then rest else some i

pub find_first_zero : ℕ → ℕ → Option ℕ
unfolding find_zero_from
find_first_zero byte start = find_zero_from (8 - start) byte start

find_setted_from : ℕ → ℕ → ℕ → Option ℕ
find_setted_from zero byte i = none
find_setted_from (suc n) byte i =
    let rest = find_setted_from n byte (i + 1) in if test_bit byte i then some i else rest

pub find_first_setted : ℕ → ℕ → Option ℕ
unfolding find_setted_from
find_first_setted byte start = find_setted_from (8 - start) byte start

-- the bytes that `size` bits take
abbrev pub bytes : ℕ → ℕ
bytes size = if size % 8 == 0 then size / 8 else size / 8 + 1

pub record Bitmap : Type 0 where
  pub mem : List ℕ
  pub base : ℕ
  pub size : ℕ

abbrev pub byte_at : Bitmap → ℕ → ℕ
byte_at b iter = get_or b.mem (b.base + iter) 0

unfoldable pub get_bit : Bitmap → ℕ → Bool
unfolding test_bit
get_bit b index = test_bit (byte_at b (index / 8)) (index % 8)

unfoldable pub set_bit : Bitmap → ℕ → Bitmap
set_bit b index = record b {
  mem = set b.mem (b.base + index / 8) (bit_or (byte_at b (index / 8)) (2 ^ (index % 8)));
}

-- `~(1 << k)` on the byte is `255 - 2 ^ k`.
unfoldable pub clear_bit : Bitmap → ℕ → Bitmap
clear_bit b index = record b {
  mem = set b.mem (b.base + index / 8) (bit_and (byte_at b (index / 8)) (255 - 2 ^ (index % 8)));
}

-- The loop of `next_unsetted_bit`: `n` bytes are left, from byte `iter` on. The bit to start at
-- is reset to 0 only behind a byte that is not full.
next_unsetted_from : Bitmap → ℕ → ℕ → ℕ → Option ℕ
next_unsetted_from b zero iter start = none
next_unsetted_from b (suc n) iter start =
    let full = byte_at b iter == 255 in
    let rest = next_unsetted_from b n (iter + 1) (if full then start else 0) in
    if full then rest else elim (find_first_zero (byte_at b iter) start) [
      | some k ↦ some (iter * 8 + k)
      | none ↦ rest
    ]

next_setted_from : Bitmap → ℕ → ℕ → ℕ → Option ℕ
next_setted_from b zero iter start = none
next_setted_from b (suc n) iter start =
    let blank = byte_at b iter == 0 in
    let rest = next_setted_from b n (iter + 1) (if blank then start else 0) in
    if blank then rest else elim (find_first_setted (byte_at b iter) start) [
      | some k ↦ some (iter * 8 + k)
      | none ↦ rest
    ]

-- `if (ret >= size_) ret = -1;`
abbrev pub below_size : ℕ → Option ℕ → Option ℕ
below_size size none = none
below_size size (some i) = if ltb i size then some i else none

unfoldable pub next_unsetted_bit : Bitmap → ℕ → Option ℕ
unfolding next_unsetted_from find_first_zero test_bit
next_unsetted_bit b start =
    below_size b.size (next_unsetted_from b (bytes b.size - start / 8) (start / 8) (start % 8))

unfoldable pub next_setted_bit : Bitmap → ℕ → Option ℕ
unfolding next_setted_from find_first_setted test_bit
next_setted_bit b start =
    below_size b.size (next_setted_from b (bytes b.size - start / 8) (start / 8) (start % 8))

-- ===== src/Bitmap/Tests.antt =====
-- Runs of the bitmap's operations, and its theorems at concrete memories.
use miniob_basic.Base.{
  ℕ, zero, suc, ◌+◌, ◌*◌, ◌%◌, ◌/◌, ◌<◌, ◌≤◌, ◌≡◌, refl, inl, [], ◌∷◌, true, not, none, some, arith,
  if◌then◌else◌, ◌==◌, get_or, ltb, ◌||◌, check_under, check_under_sound,
}
use miniob_basic.Bitmap.{Bitmap, get_bit, set_bit, next_unsetted_bit, next_setted_bit}
use miniob_basic.Bitmap.Get.{IsValid, get_bit-set_bit}
use miniob_basic.Bitmap.Search.{IsFirst, next_unsetted_bit-IsFirst}
use miniob_basic.Bitmap.Skip.{next_unsetted_bit-skips}

-- one byte before the bitmap, then a full byte, then a byte with bit 0 clear
abbrev two_full : Bitmap
two_full = record { mem = 7 ∷ 255 ∷ 254 ∷ []; base = 1; size = 16 }

two_full-IsValid : IsValid two_full
two_full-IsValid = record { byte = byte; inside = omega arith }
  where
    byte : (i : ℕ) → get_or two_full.mem i 0 < 256
    byte zero = omega arith
    byte (suc zero) = omega arith
    byte (suc (suc zero)) = omega arith
    byte (suc (suc (suc i))) = omega arith

aligned_run : next_unsetted_bit two_full 0 ≡ some 8
unfolding next_unsetted_bit
aligned_run = refl

unaligned_run : next_unsetted_bit two_full 3 ≡ none
unfolding next_unsetted_bit
unaligned_run = refl

setted_run : next_setted_bit two_full 8 ≡ some 9
unfolding next_setted_bit
setted_run = refl

set_run : get_bit (set_bit two_full 8) 8 ≡ true
unfolding get_bit set_bit
set_run = refl

get_bit-set_bit_example :
    IsValid (set_bit two_full 8)
    × ((j : ℕ) → get_bit (set_bit two_full 8) j ≡ (if 8 == j then true else get_bit two_full j))
get_bit-set_bit_example = get_bit-set_bit two_full two_full-IsValid 8 (omega arith)

next_unsetted_bit-IsFirst_example :
    IsFirst (λ j. not (get_bit two_full j)) 0 16 (next_unsetted_bit two_full 0)
next_unsetted_bit-IsFirst_example = next_unsetted_bit-IsFirst two_full 0 (inl refl)

tail_table : check_under 8 (λ k. ltb k 3 || get_bit two_full (8 + k)) ≡ true
unfolding get_bit check_under
tail_table = refl

last_bits_set : (k : ℕ) → 3 % 8 ≤ k → k < 8 → get_bit two_full ((3 / 8 + 1) * 8 + k) ≡ true
last_bits_set k a b =
    ground (arith, check_under_sound (λ k. ltb k 3 || get_bit two_full (8 + k)) 8 k b tail_table)

next_unsetted_bit-skips_example :
    (next_unsetted_bit two_full 3 ≡ none)
    × ¬ IsFirst (λ j. not (get_bit two_full j)) 3 16 (next_unsetted_bit two_full 3)
unfolding get_bit
next_unsetted_bit-skips_example =
    next_unsetted_bit-skips two_full 3 8 refl refl last_bits_set (omega arith) (omega arith) refl

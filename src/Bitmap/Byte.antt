-- ===== src/Bitmap/Byte.antt =====
-- Setting, clearing and testing a bit of one byte, by checking every byte and position.
use miniob_basic.Base.{
  ℕ, ◌-◌, ◌^◌, ◌<◌, ◌≡◌, refl, Bool, true, false, not, ◌&&◌, ◌||◌, arith, bit_and, bit_or, ltb,
  ltb→lt, ◌==◌, check_under, check_under_sound,
}
use miniob_basic.Bitmap.{test_bit}

same : Bool → Bool → Bool
same true b = b
same false b = not b

same→eq : (a b : Bool) → same a b ≡ true → a ≡ b
unfolding same
same→eq a b h = ground arith

and_left : (a b : Bool) → a && b ≡ true → a ≡ true
and_left a b h = ground arith

and_right : (a b : Bool) → a && b ≡ true → b ≡ true
and_right a b h = ground arith

set_row : ℕ → ℕ → ℕ → Bool
unfolding test_bit same
set_row b i j = same (test_bit (bit_or b (2 ^ i)) j) ((i == j) || test_bit b j)

clear_row : ℕ → ℕ → ℕ → Bool
unfolding test_bit same
clear_row b i j = same (test_bit (bit_and b (255 - 2 ^ i)) j) (not (i == j) && test_bit b j)

cell : (ℕ → ℕ → ℕ → Bool) → (ℕ → ℕ → ℕ) → ℕ → ℕ → Bool
cell row op b i = ltb (op b i) 256 && check_under 8 (row b i)

table : (ℕ → ℕ → ℕ → Bool) → (ℕ → ℕ → ℕ) → Bool
table row op = check_under 256 (λ b. check_under 8 (cell row op b))

set_table : table set_row (λ b i. bit_or b (2 ^ i)) ≡ true
unfolding table cell check_under set_row
set_table = refl

clear_table : table clear_row (λ b i. bit_and b (255 - 2 ^ i)) ≡ true
unfolding table cell check_under clear_row
clear_table = refl

module _ (row : ℕ → ℕ → ℕ → Bool) (op : ℕ → ℕ → ℕ) (checked : table row op ≡ true) (b i : ℕ)
    (hb : b < 256) (hi : i < 8) where
  table_cell : cell row op b i ≡ true
  unfolding table
  table_cell =
      check_under_sound (cell row op b) 8 i hi
        (check_under_sound (λ x. check_under 8 (cell row op x)) 256 b hb checked)

  table_byte : op b i < 256
  unfolding cell
  table_byte =
      ltb→lt (op b i) 256 (and_left (ltb (op b i) 256) (check_under 8 (row b i)) table_cell)

  table_row : (j : ℕ) → j < 8 → row b i j ≡ true
  unfolding cell
  table_row j hj =
      check_under_sound (row b i) 8 j hj
        (and_right (ltb (op b i) 256) (check_under 8 (row b i)) table_cell)

module _ (b i : ℕ) (hb : b < 256) (hi : i < 8) where
  pub bit_or_byte : bit_or b (2 ^ i) < 256
  bit_or_byte = table_byte set_row (λ b i. bit_or b (2 ^ i)) set_table b i hb hi

  pub bit_and_byte : bit_and b (255 - 2 ^ i) < 256
  bit_and_byte = table_byte clear_row (λ b i. bit_and b (255 - 2 ^ i)) clear_table b i hb hi

  pub test_bit-bit_or : (j : ℕ) → j < 8 → test_bit (bit_or b (2 ^ i)) j ≡ ((i == j) || test_bit b j)
  unfolding set_row
  test_bit-bit_or j hj =
      same→eq _ _ (table_row set_row (λ b i. bit_or b (2 ^ i)) set_table b i hb hi j hj)

  pub test_bit-bit_and :
      (j : ℕ) → j < 8 → test_bit (bit_and b (255 - 2 ^ i)) j ≡ (not (i == j) && test_bit b j)
  unfolding clear_row
  test_bit-bit_and j hj =
      same→eq _ _ (table_row clear_row (λ b i. bit_and b (255 - 2 ^ i)) clear_table b i hb hi j hj)

full_table : check_under 8 (λ j. test_bit 255 j) ≡ true
unfolding check_under test_bit
full_table = refl

blank_table : check_under 8 (λ j. not (test_bit 0 j)) ≡ true
unfolding check_under test_bit
blank_table = refl

pub test_bit-full : (j : ℕ) → j < 8 → test_bit 255 j ≡ true
test_bit-full j h = check_under_sound (λ j. test_bit 255 j) 8 j h full_table

not-true : (b : Bool) → not b ≡ true → b ≡ false
not-true b h = ground arith

pub test_bit-blank : (j : ℕ) → j < 8 → test_bit 0 j ≡ false
test_bit-blank j h =
    not-true (test_bit 0 j) (check_under_sound (λ j. not (test_bit 0 j)) 8 j h blank_table)

-- ===== src/Bitmap/Skip.antt =====
-- Where `next_unsetted_bit` misses a bit: behind a full byte the loop keeps the bit to start at.
use miniob_basic.Base.{
  ℕ, ◌+◌, ◌*◌, ◌-◌, ◌/◌, ◌%◌, ◌≤◌, ◌<◌, ◌≡◌, refl, Bool, true, false, not, Option, none, arith, ◌∙◌,
  sym, ap, some,
}
use mathlib.Core.Bool.{false≢true}
use miniob_basic.Bitmap.{
  Bitmap, byte_at, bytes, get_bit, find_first_zero, next_unsetted_from, next_unsetted_bit,
}
use miniob_basic.Bitmap.Search.{IsFirst, find_first_zero-IsFirst}

none_of_first :
    (p : ℕ → Bool) (lo hi : ℕ) (r : Option ℕ)
    → ((k : ℕ) → lo ≤ k → k < hi → p k ≡ false)
    → IsFirst p lo hi r
    → r ≡ none
none_of_first p lo hi none e f = refl
none_of_first p lo hi (some k) e (a, c, t, f) = absurd (false≢true (sym (e k a c) ∙ t))

find_first_zero-none :
    (b : Bitmap) (i s : ℕ)
    → s < 8
    → ((k : ℕ) → s ≤ k → k < 8 → get_bit b (i * 8 + k) ≡ true)
    → find_first_zero (byte_at b i) s ≡ none
find_first_zero-none b i s h e =
    none_of_first (λ k. not (get_bit b (i * 8 + k))) s 8 (find_first_zero (byte_at b i) s)
      (λ k a c. ap not (e k a c)) (find_first_zero-IsFirst b i s h)

two_bytes :
    (b : Bitmap) (iter s : ℕ)
    → byte_at b iter ≡ 255
    → find_first_zero (byte_at b (iter + 1)) s ≡ none
    → next_unsetted_from b 2 iter s ≡ none
unfolding next_unsetted_from
two_bytes b iter s full e = ground arith

-- From a start inside a full byte before the last, with the bits of the last byte set from the start's
-- place in its byte on, the search returns -1, although one of the last byte's first bits is clear, which a
-- right search would have found.
pub next_unsetted_bit-skips :
    (b : Bitmap) (start j : ℕ)
    → byte_at b (start / 8) ≡ 255
    → bytes b.size ≡ start / 8 + 2
    → ((k : ℕ) → start % 8 ≤ k → k < 8 → get_bit b ((start / 8 + 1) * 8 + k) ≡ true)
    → start ≤ j
    → j < b.size
    → get_bit b j ≡ false
    → (next_unsetted_bit b start ≡ none)
      × ¬ IsFirst (λ j. not (get_bit b j)) start b.size (next_unsetted_bit b start)
unfolding next_unsetted_bit
next_unsetted_bit-skips b start j full two set a c clear =
    let n : bytes b.size - start / 8 ≡ 2 = omega arith in
    let found =
      two_bytes b (start / 8) (start % 8) full
        (find_first_zero-none b (start / 8 + 1) (start % 8) (omega arith) set) in
    let searched : next_unsetted_bit b start ≡ none = rw (n, found) refl in
    (searched, λ f. false≢true (sym ((rw searched at f) j a c) ∙ ap not clear))

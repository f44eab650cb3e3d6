-- ===== src/Bitmap/Search.antt =====
-- `next_unsetted_bit` and `next_setted_bit` find the first bit, where the scan starts at a byte's
-- first bit or in a byte that it does not skip.
use miniob_basic.Base.{
  ℕ, zero, suc, ◌+◌, ◌*◌, ◌-◌, ◌/◌, ◌%◌, ◌≤◌, ◌<◌, ◌≡◌, ◌≢◌, refl, ◌⊎◌, inl, inr, Bool, true, false,
  not, arith, Option, none, some, ◌==◌, if◌then◌else◌, Bool-cases, ==_iff, ==_ne, ap, ◌∙◌, dec_lt,
  dec_le, lt→ltb, le→not_ltb,
}
use native.Mathlib.Nat.{le_refl}
use miniob_basic.Bitmap.{
  Bitmap, byte_at, bytes, below_size, test_bit, find_zero_from, find_first_zero, find_setted_from,
  find_first_setted, next_unsetted_from, next_setted_from, next_unsetted_bit, next_setted_bit,
  get_bit,
}
use miniob_basic.Bitmap.Byte.{test_bit-full, test_bit-blank}

-- `r` is the first place of `p` in the range from `lo` up to `hi`.
abbrev pub IsFirst : (ℕ → Bool) → ℕ → ℕ → Option ℕ → Type 0
IsFirst p lo hi none = (j : ℕ) → lo ≤ j → j < hi → p j ≡ false
IsFirst p lo hi (some k) =
    (lo ≤ k) × (k < hi) × (p k ≡ true) × ((j : ℕ) → lo ≤ j → j < k → p j ≡ false)

-- A range with nothing in it may be put in front.
IsFirst-extend :
    (p : ℕ → Bool) (lo mid hi : ℕ) (r : Option ℕ)
    → lo ≤ mid
    → ((j : ℕ) → lo ≤ j → j < mid → p j ≡ false)
    → IsFirst p mid hi r
    → IsFirst p lo hi r
IsFirst-extend p lo mid hi none h e f =
    λ j a b. elim (dec_lt j mid) [ yes c ↦ e j a c | no c ↦ f j (omega arith) b ]
IsFirst-extend p lo mid hi (some k) h e (a, b, c, f) = (
  omega arith,
  b,
  c,
  λ j a b. elim (dec_lt j mid) [ yes c ↦ e j a c | no c ↦ f j (omega arith) b ],
)

-- The loops over the bits of a byte, for either bit.
first_from : (ℕ → Bool) → ℕ → ℕ → Option ℕ
first_from p zero i = none
first_from p (suc n) i = if p i then some i else first_from p n (i + 1)

first_from-IsFirst : (p : ℕ → Bool) (n i hi : ℕ) → i + n ≡ hi → IsFirst p i hi (first_from p n i)
unfolding first_from
first_from-IsFirst p zero i hi e = λ j a b. absurd (omega arith)
first_from-IsFirst p (suc n) i hi e = elim (Bool-cases (p i)) [
  | inl t ↦ rw t (le_refl i, omega arith, t, λ j a b. absurd (omega arith))
  | inr f ↦ rw f (
      IsFirst-extend p i (i + 1) hi (first_from p n (i + 1)) (omega arith)
        (λ j a b. let s : j ≡ i = omega arith in rw s f)
        (first_from-IsFirst p n (i + 1) hi (omega arith)))
]

-- The predicate counts only within the range.
IsFirst-congr :
    (p q : ℕ → Bool) (lo hi : ℕ) (r : Option ℕ)
    → ((j : ℕ) → j < hi → p j ≡ q j)
    → IsFirst q lo hi r
    → IsFirst p lo hi r
IsFirst-congr p q lo hi none e f = λ j a b. e j b ∙ f j a b
IsFirst-congr p q lo hi (some k) e (a, b, c, f) =
    (a, b, e k b ∙ c, λ j g h. e j (omega arith) ∙ f j g h)

find_zero_from_lem :
    (n byte i : ℕ) → find_zero_from n byte i ≡ first_from (λ j. not (test_bit byte j)) n i
unfolding find_zero_from first_from
find_zero_from_lem zero byte i = refl
find_zero_from_lem (suc n) byte i = ground (arith, find_zero_from_lem n byte (i + 1))

find_setted_from_lem :
    (n byte i : ℕ) → find_setted_from n byte i ≡ first_from (λ j. test_bit byte j) n i
unfolding find_setted_from first_from
find_setted_from_lem zero byte i = refl
find_setted_from_lem (suc n) byte i = ground (arith, find_setted_from_lem n byte (i + 1))

-- The loop over the bytes, for either bit: `skips` is the test for a byte with nothing to find.
scan : (ℕ → Bool) → (ℕ → ℕ → Option ℕ) → ℕ → ℕ → ℕ → Option ℕ
scan skips find zero iter start = none
scan skips find (suc n) iter start =
    let rest = scan skips find n (iter + 1) (if skips iter then start else 0) in
    if skips iter
    then rest
    else elim (find iter start) [ some k ↦ some (iter * 8 + k) | none ↦ rest ]

module _ (p skips : ℕ → Bool) (find : ℕ → ℕ → Option ℕ)
    (skip_sound : (i k : ℕ) → skips i ≡ true → k < 8 → p (i * 8 + k) ≡ false)
    (find_first : (i s : ℕ) → s < 8 → IsFirst (λ k. p (i * 8 + k)) s 8 (find i s)) where
  -- A byte in which nothing is found.
  byte_none :
      (i s j : ℕ)
      → ((k : ℕ) → s ≤ k → k < 8 → p (i * 8 + k) ≡ false)
      → i * 8 + s ≤ j
      → j < (i + 1) * 8
      → p j ≡ false
  byte_none i s j e a b =
      let q : i * 8 + (j - i * 8) ≡ j = omega arith in
      rw q at (e (j - i * 8) (omega arith) (omega arith))

  byte_found :
      (i s k hi : ℕ)
      → (i + 1) * 8 ≤ hi
      → IsFirst (λ k. p (i * 8 + k)) s 8 (some k)
      → IsFirst p (i * 8 + s) hi (some (i * 8 + k))
  byte_found i s k hi h (a, b, c, d) = (
    omega arith,
    omega arith,
    c,
    λ j e f.
        let q : i * 8 + (j - i * 8) ≡ j = omega arith in
        rw q at (d (j - i * 8) (omega arith) (omega arith)),
  )

  -- The rest of the loop counts only if the byte has nothing.
  byte_or_rest :
      (i s hi : ℕ) (r rest : Option ℕ)
      → s < 8
      → (i + 1) * 8 ≤ hi
      → IsFirst (λ k. p (i * 8 + k)) s 8 r
      → IsFirst p ((i + 1) * 8 + 0) hi rest
      → IsFirst p (i * 8 + s) hi (elim r [ some k ↦ some (i * 8 + k) | none ↦ rest ])
  byte_or_rest i s hi none rest hs h a b =
      IsFirst-extend p (i * 8 + s) ((i + 1) * 8 + 0) hi rest (omega arith)
        (λ j c d. byte_none i s j a c (omega arith)) b
  byte_or_rest i s hi (some k) rest hs h a b = byte_found i s k hi h a

  scan-IsFirst :
      (n iter start hi : ℕ)
      → (iter + n) * 8 ≡ hi
      → start < 8
      → (start ≡ 0) ⊎ (skips iter ≡ false)
      → IsFirst p (iter * 8 + start) hi (scan skips find n iter start)
  unfolding scan
  scan-IsFirst zero iter start hi e h s = λ j a b. absurd (omega arith)
  scan-IsFirst (suc n) iter start hi e h s = elim (Bool-cases (skips iter)) [
    | inl t ↦
        let z : start ≡ 0 = ground arith in
        rw (t, z)
          (IsFirst-extend p (iter * 8 + 0) ((iter + 1) * 8 + 0) hi _ (omega arith)
            (λ j a b. byte_none iter 0 j (λ k _ c. skip_sound iter k t c) a (omega arith))
            (scan-IsFirst n (iter + 1) 0 hi (omega arith) (omega arith) (inl refl)))
    | inr f ↦ rw f (
        byte_or_rest iter start hi (find iter start) _ h (omega arith) (find_first iter start h)
          (rw f (scan-IsFirst n (iter + 1) 0 hi (omega arith) (omega arith) (inl refl))))
  ]

next_unsetted_from_lem :
    (b : Bitmap) (n iter start : ℕ)
    → next_unsetted_from b n iter start
      ≡ scan (λ i. byte_at b i == 255) (λ i. find_first_zero (byte_at b i)) n iter start
unfolding next_unsetted_from scan
next_unsetted_from_lem b zero iter start = refl
next_unsetted_from_lem b (suc n) iter start =
    ground
      (arith, next_unsetted_from_lem b n (iter + 1) start, next_unsetted_from_lem b n (iter + 1) 0)

next_setted_from_lem :
    (b : Bitmap) (n iter start : ℕ)
    → next_setted_from b n iter start
      ≡ scan (λ i. byte_at b i == 0) (λ i. find_first_setted (byte_at b i)) n iter start
unfolding next_setted_from scan
next_setted_from_lem b zero iter start = refl
next_setted_from_lem b (suc n) iter start =
    ground (arith, next_setted_from_lem b n (iter + 1) start, next_setted_from_lem b n (iter + 1) 0)

IsFirst-below_size :
    (p : ℕ → Bool) (lo hi size : ℕ) (r : Option ℕ)
    → size ≤ hi
    → IsFirst p lo hi r
    → IsFirst p lo size (below_size size r)
IsFirst-below_size p lo hi size none h f = λ j a b. f j a (omega arith)
IsFirst-below_size p lo hi size (some k) h f = elim (dec_lt k size) [
  | yes c ↦ rw (lt→ltb k size c) (f.0, c, f.2, f.3)
  | no c ↦ rw (le→not_ltb size k (omega arith)) (λ j a b. f.3 j a (omega arith))
]

bytes_cover : (size : ℕ) → size ≤ bytes size * 8
bytes_cover size = ground arith

get_bit-byte : (b : Bitmap) (i k : ℕ) → k < 8 → get_bit b (i * 8 + k) ≡ test_bit (byte_at b i) k
unfolding get_bit
get_bit-byte b i k h =
    let q : (i * 8 + k) / 8 ≡ i = omega arith in
    let r : (i * 8 + k) % 8 ≡ k = omega arith in rw (q, r)

-- A scan of the whole bitmap, from the bit `start` on.
scan_bitmap-IsFirst :
    (p skips : ℕ → Bool) (find : ℕ → ℕ → Option ℕ)
    → ((i k : ℕ) → skips i ≡ true → k < 8 → p (i * 8 + k) ≡ false)
    → ((i s : ℕ) → s < 8 → IsFirst (λ k. p (i * 8 + k)) s 8 (find i s))
    → (size start : ℕ) → (start % 8 ≡ 0) ⊎ (skips (start / 8) ≡ false)
    → IsFirst p start size
        (below_size size (scan skips find (bytes size - start / 8) (start / 8) (start % 8)))
scan_bitmap-IsFirst p skips find a b size start h = elim (dec_le (start / 8) (bytes size)) [
  | yes c ↦
      let q : start / 8 * 8 + start % 8 ≡ start = omega arith in
      IsFirst-below_size p start (bytes size * 8) size _ (bytes_cover size) (
        rw q at (
          scan-IsFirst p skips find a b (bytes size - start / 8) (start / 8) (start % 8)
            (bytes size * 8) (omega arith) (omega arith) h))
  | no c ↦
      let q : bytes size - start / 8 ≡ 0 = omega arith in
      let r : bytes size * 8 ≤ start = omega arith in
      unfold scan in rw q (λ j e f. absurd (omega (arith, bytes_cover size)))
]

pub find_first_zero-IsFirst :
    (b : Bitmap) (i s : ℕ)
    → s < 8
    → IsFirst (λ k. not (get_bit b (i * 8 + k))) s 8 (find_first_zero (byte_at b i) s)
unfolding find_first_zero
find_first_zero-IsFirst b i s h = rw find_zero_from_lem (
    IsFirst-congr _ _ s 8 _ (λ k c. ap not (get_bit-byte b i k c))
      (first_from-IsFirst (λ k. not (test_bit (byte_at b i) k)) (8 - s) s 8 (omega arith)))

find_first_setted-IsFirst :
    (b : Bitmap) (i s : ℕ)
    → s < 8
    → IsFirst (λ k. get_bit b (i * 8 + k)) s 8 (find_first_setted (byte_at b i) s)
unfolding find_first_setted
find_first_setted-IsFirst b i s h = rw find_setted_from_lem (
    IsFirst-congr _ _ s 8 _ (λ k c. get_bit-byte b i k c)
      (first_from-IsFirst (λ k. test_bit (byte_at b i) k) (8 - s) s 8 (omega arith)))

get_bit-full :
    (b : Bitmap) (i k : ℕ)
    → (byte_at b i == 255) ≡ true
    → k < 8
    → not (get_bit b (i * 8 + k)) ≡ false
get_bit-full b i k e h =
    let q : byte_at b i ≡ 255 = (==_iff _ _).0 e in
    ap not (get_bit-byte b i k h ∙ ap (λ w. test_bit w k) q ∙ test_bit-full k h)

get_bit-blank :
    (b : Bitmap) (i k : ℕ) → (byte_at b i == 0) ≡ true → k < 8 → get_bit b (i * 8 + k) ≡ false
get_bit-blank b i k e h =
    let q : byte_at b i ≡ 0 = (==_iff _ _).0 e in
    get_bit-byte b i k h ∙ ap (λ w. test_bit w k) q ∙ test_bit-blank k h

starts : (m k : ℕ) (start : ℕ) → (start ≡ 0) ⊎ (m ≢ k) → (start ≡ 0) ⊎ ((m == k) ≡ false)
starts m k start (inl e) = inl e
starts m k start (inr d) = inr (==_ne m k d)

-- `next_unsetted_bit` returns the first bit from `start` on that is not set, and -1 exactly if the
-- bitmap has none there, where `start` is a byte's first bit or its byte is not full.
pub next_unsetted_bit-IsFirst :
    (b : Bitmap) (start : ℕ)
    → (start % 8 ≡ 0) ⊎ (byte_at b (start / 8) ≢ 255)
    → IsFirst (λ j. not (get_bit b j)) start b.size (next_unsetted_bit b start)
unfolding next_unsetted_bit
next_unsetted_bit-IsFirst b start h = rw next_unsetted_from_lem (
    scan_bitmap-IsFirst (λ j. not (get_bit b j)) (λ i. byte_at b i == 255)
      (λ i. find_first_zero (byte_at b i)) (get_bit-full b) (find_first_zero-IsFirst b) b.size start
      (starts _ _ _ h))

-- `next_setted_bit` returns the first bit from `start` on that is set, and -1 exactly if the
-- bitmap has none there, where `start` is a byte's first bit or its byte is not 0.
pub next_setted_bit-IsFirst :
    (b : Bitmap) (start : ℕ)
    → (start % 8 ≡ 0) ⊎ (byte_at b (start / 8) ≢ 0)
    → IsFirst (get_bit b) start b.size (next_setted_bit b start)
unfolding next_setted_bit
next_setted_bit-IsFirst b start h = rw next_setted_from_lem (
    scan_bitmap-IsFirst (get_bit b) (λ i. byte_at b i == 0) (λ i. find_first_setted (byte_at b i))
      (get_bit-blank b) (find_first_setted-IsFirst b) b.size start (starts _ _ _ h))

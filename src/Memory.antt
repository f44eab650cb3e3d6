-- ===== src/Memory.antt =====
-- Blocks of a memory, a list of bytes: the `memcpy` and `memset` of the C library, and the bytes
-- that a pointer and a length stand for.
use miniob_basic.Base.{
  ℕ, zero, suc, ◌+◌, ◌-◌, ◌≤◌, ◌<◌, ◌≡◌, refl, ap, ap₂, sym, ◌∙◌, arith, List, [], ◌∷◌, set,
  replicate, ltb, leb, ◌&&◌, ℕ_discrete, if◌then◌else◌, length, get_or, length-set, get_or-set,
  le→leb, lt→ltb, ◌⊎◌,
}

-- `memcpy(mem + off, src, n)`
unfoldable pub memcpy : ℕ → List ℕ → ℕ → List ℕ → List ℕ
memcpy zero mem off src = mem
memcpy (suc n) mem off src = set (memcpy n mem off src) (off + n) (get_or src n 0)

-- `memset(mem + off, 0, n)`
abbrev pub memset_zero : List ℕ → ℕ → ℕ → List ℕ
memset_zero mem off n = memcpy n mem off (replicate n 0)

-- The `n` bytes from `mem + off` on.
unfoldable pub slice : ℕ → List ℕ → ℕ → List ℕ
slice zero mem off = []
slice (suc n) mem off = get_or mem off 0 ∷ slice n mem (off + 1)

pub length-memcpy :
    (n : ℕ) (mem : List ℕ) (off : ℕ) (src : List ℕ) → length (memcpy n mem off src) ≡ length mem
unfolding memcpy
length-memcpy zero mem off src = refl
length-memcpy (suc n) mem off src = omega (
  arith,
  length-set (memcpy n mem off src) (off + n) (get_or src n 0),
  length-memcpy n mem off src,
)

-- The bytes from `off` on are those of the source, all others are as they were.
pub get_or-memcpy :
    (n : ℕ) (mem : List ℕ) (off : ℕ) (src : List ℕ) (j : ℕ)
    → off + n ≤ length mem
    → get_or (memcpy n mem off src) j 0
      ≡ (if leb off j && ltb j (off + n) then get_or src (j - off) 0 else get_or mem j 0)
unfolding memcpy
get_or-memcpy zero mem off src j h = ground arith
get_or-memcpy (suc n) mem off src j h = elim (ℕ_discrete (off + n) j) [
  | yes e ↦
      let q : j - off ≡ n = omega arith in
      rw q (
        ground (
          arith,
          length-memcpy n mem off src,
          get_or-set (memcpy n mem off src) (off + n) j (get_or src n 0) 0,
        ))
  | no e ↦ ground (
    arith,
    length-memcpy n mem off src,
    get_or-set (memcpy n mem off src) (off + n) j (get_or src n 0) 0,
    get_or-memcpy n mem off src j,
  )
]

at_index :
    {i i' j j' : ℕ} (mem mem' : List ℕ)
    → i ≡ j
    → i' ≡ j'
    → get_or mem i 0 ≡ get_or mem' i' 0
    → get_or mem j 0 ≡ get_or mem' j' 0
at_index mem mem' p q e = ap (λ i. get_or mem i 0) (sym p) ∙ e ∙ ap (λ i. get_or mem' i 0) q

-- Equal bytes are equal slices.
pub slice-congr :
    (n : ℕ) (mem mem' : List ℕ) (off off' : ℕ)
    → ((k : ℕ) → k < n → get_or mem (off + k) 0 ≡ get_or mem' (off' + k) 0)
    → slice n mem off ≡ slice n mem' off'
unfolding slice
slice-congr zero mem mem' off off' e = refl
slice-congr (suc n) mem mem' off off' e =
    ap₂ ◌∷◌ (at_index mem mem' (omega arith) (omega arith) (e 0 (omega arith))) (
      slice-congr n mem mem' (off + 1) (off' + 1)
        (λ k h. at_index mem mem' (omega arith) (omega arith) (e (suc k) (omega arith))))

pub length-slice : (n : ℕ) (mem : List ℕ) (off : ℕ) → length (slice n mem off) ≡ n
unfolding slice
length-slice zero mem off = refl
length-slice (suc n) mem off = ap suc (length-slice n mem (off + 1))

pub get_or-slice :
    (n : ℕ) (mem : List ℕ) (off k : ℕ)
    → k < n
    → get_or (slice n mem off) k 0 ≡ get_or mem (off + k) 0
unfolding slice
get_or-slice zero mem off k h = absurd (omega arith)
get_or-slice (suc n) mem off zero h = ap (λ i. get_or mem i 0) (omega arith)
get_or-slice (suc n) mem off (suc k) h =
    get_or-slice n mem (off + 1) k (omega arith) ∙ ap (λ i. get_or mem i 0) (omega arith)

-- What `memcpy` has written is read back.
pub get_or-memcpy_in :
    (n : ℕ) (mem : List ℕ) (off : ℕ) (src : List ℕ) (k : ℕ)
    → off + n ≤ length mem
    → k < n
    → get_or (memcpy n mem off src) (off + k) 0 ≡ get_or src k 0
get_or-memcpy_in n mem off src k h c =
    let q : off + k - off ≡ k = omega arith in
    get_or-memcpy n mem off src (off + k) h
    ∙ rw (q, le→leb off (off + k) (omega arith), lt→ltb (off + k) (off + n) (omega arith))

pub slice-memcpy :
    (n : ℕ) (mem : List ℕ) (off : ℕ) (src : List ℕ)
    → off + n ≤ length mem
    → slice n (memcpy n mem off src) off ≡ slice n src 0
slice-memcpy n mem off src h =
    slice-congr n (memcpy n mem off src) src off 0
      (λ k c. let r : 0 + k ≡ k = omega arith in rw r (get_or-memcpy_in n mem off src k h c))

-- Bytes outside the range that `memcpy` writes are read as before.
pub slice-memcpy_apart :
    (n m : ℕ) (mem : List ℕ) (off at : ℕ) (src : List ℕ)
    → off + n ≤ length mem
    → (at + m ≤ off) ⊎ (off + n ≤ at)
    → slice m (memcpy n mem off src) at ≡ slice m mem at
slice-memcpy_apart n m mem off at src h d =
    slice-congr m (memcpy n mem off src) mem at at
      (λ k c. ground (arith, get_or-memcpy n mem off src (at + k) h))

-- The whole of a list is its slice.
pub slice-all : (n : ℕ) (xs : List ℕ) → length xs ≡ n → slice n xs 0 ≡ xs
unfolding slice
slice-all zero [] e = refl
slice-all zero (x ∷ xs) e = absurd (omega arith)
slice-all (suc n) [] e = absurd (omega arith)
slice-all (suc n) (x ∷ xs) e =
    ap (◌∷◌ x) (slice-congr n (x ∷ xs) xs 1 0 (λ k c. shifted k) ∙ slice-all n xs (omega arith))
  where
    shifted : (k : ℕ) → get_or (x ∷ xs) (1 + k) 0 ≡ get_or xs (0 + k) 0
    shifted k = let q : 1 + k ≡ suc k = omega arith in let r : 0 + k ≡ k = omega arith in rw (q, r)

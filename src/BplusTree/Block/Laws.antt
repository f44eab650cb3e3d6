-- ===== src/BplusTree/Block/Laws.antt =====
-- Single items: the items of a node as a list.
use miniob_basic.Base.{
  ℕ, zero, suc, ◌+◌, ◌-◌, ◌≤◌, ◌<◌, ◌≡◌, refl, sym, ap, ap₂, ◌∙◌, ◌≢◌, some, List, [], ◌∷◌, ◌++◌,
  ==_iff, ==_ne, ltb, lt→ltb, le→not_ltb, if◌then◌else◌, arith, dec_lt, inl,
}
use miniob_basic.BplusTree.Array.{
  memcpy, write, slice, slice-same, slice-append, memcpy_in, memcpy_out,
}
use miniob_basic.BplusTree.Block.{Block, insert_at, remove_at, append, preappend, copy_from}

abbrev pub insert_nth {ℓ} : {A : Type ℓ} → ℕ → A → List A → List A
insert_nth zero x xs = x ∷ xs
insert_nth (suc i) x [] = x ∷ []
insert_nth (suc i) x (y ∷ ys) = y ∷ insert_nth i x ys

abbrev pub remove_nth {ℓ} : {A : Type ℓ} → ℕ → List A → List A
remove_nth i [] = []
remove_nth zero (x ∷ xs) = xs
remove_nth (suc i) (x ∷ xs) = x ∷ remove_nth i xs

abbrev pub items {ℓ} : {A : Type ℓ} → Block A → List A
items b = slice b.array 0 b.size

module _ {ℓ} {A : Type ℓ} where
  insert_nth-slice :
      (a : ℕ → A) (s n i : ℕ) (x : A)
      → i ≤ n
      → insert_nth i x (slice a s n) ≡ slice a s i ++ (x ∷ slice a (s + i) (n - i))
  insert_nth-slice a s n zero x h = ap (◌∷◌ x) (ap₂ (slice a) (omega arith) (omega arith))
  insert_nth-slice a s zero (suc i) x h = absurd (omega arith)
  insert_nth-slice a s (suc n) (suc i) x h = ap (◌∷◌ (a s)) (
      insert_nth-slice a (suc s) n i x (omega arith)
      ∙ ap₂ (λ r m. slice a (suc s) i ++ (x ∷ slice a r m)) (omega arith) (omega arith))

  remove_nth-slice :
      (a : ℕ → A) (s n i : ℕ)
      → i < n
      → remove_nth i (slice a s n) ≡ slice a s i ++ slice a (s + i + 1) (n - i - 1)
  remove_nth-slice a s zero i h = absurd (omega arith)
  remove_nth-slice a s (suc n) zero h = ap₂ (slice a) (omega arith) (omega arith)
  remove_nth-slice a s (suc n) (suc i) h = ap (◌∷◌ (a s)) (
      remove_nth-slice a (suc s) n i (omega arith)
      ∙ ap₂ (λ r m. slice a (suc s) i ++ slice a r m) (omega arith) (omega arith))

  write_other : (a : ℕ → A) (i j : ℕ) (x : A) → j ≢ i → write a i x j ≡ a j
  unfolding write
  write_other a i j x h = rw (==_ne j i h, write) refl

  write_self : (a : ℕ → A) (i : ℕ) (x : A) → write a i x i ≡ x
  unfolding write
  write_self a i x = rw ((==_iff i i).1 refl, write) refl

  -- A row in three parts.
  split_at :
      (a : ℕ → A) (n i : ℕ)
      → i ≤ n
      → slice a 0 (n + 1) ≡ slice a 0 i ++ (a i ∷ slice a (i + 1) (n - i))
  split_at a n i h =
      ap (slice a 0) (omega arith)
      ∙ slice-append a 0 i (suc (n - i))
      ∙ ap₂ (λ r s. slice a 0 i ++ (a r ∷ slice a s (n - i))) (omega arith) (omega arith)

  -- Room is made in front of the items behind a place.
  moved : Block A → ℕ → ℕ → A
  moved b i = if ltb i b.size then memcpy b.array (i + 1) b.array i (b.size - i) else b.array

  moved_low : (b : Block A) (i j : ℕ) → j < i → moved b i j ≡ b.array j
  unfolding moved
  moved_low b i j h = elim (dec_lt i b.size) [
    | yes g ↦
        rw (lt→ltb i b.size g)
          (memcpy_out b.array (i + 1) b.array i (b.size - i) j (inl (omega arith)))
    | no g ↦ rw (le→not_ltb b.size i (omega arith)) refl
  ]

  moved_high : (b : Block A) (i k : ℕ) → k < b.size - i → moved b i (i + 1 + k) ≡ b.array (i + k)
  unfolding moved
  moved_high b i k h =
      rw (lt→ltb i b.size (omega arith)) (memcpy_in b.array (i + 1) b.array i (b.size - i) k h)

  -- The items behind a place move up by one.
  pub closed : Block A → ℕ → ℕ → A
  closed b i =
      if ltb i (b.size - 1) then memcpy b.array i b.array (i + 1) (b.size - i - 1) else b.array

  closed_low : (b : Block A) (i j : ℕ) → j < i → closed b i j ≡ b.array j
  unfolding closed
  closed_low b i j h = elim (dec_lt i (b.size - 1)) [
    | yes g ↦
        rw (lt→ltb i (b.size - 1) g)
          (memcpy_out b.array i b.array (i + 1) (b.size - i - 1) j (inl h))
    | no g ↦ rw (le→not_ltb (b.size - 1) i (omega arith)) refl
  ]

  closed_high :
      (b : Block A) (i k : ℕ) → k < b.size - i - 1 → closed b i (i + k) ≡ b.array (i + 1 + k)
  unfolding closed
  closed_high b i k h =
      rw (lt→ltb i (b.size - 1) (omega arith))
        (memcpy_in b.array i b.array (i + 1) (b.size - i - 1) k h)

  pub items-insert_at :
      (b : Block A) (i : ℕ) (x : A)
      → i ≤ b.size
      → items (insert_at b i x) ≡ insert_nth i x (items b)
  unfolding insert_at moved
  items-insert_at b i x h =
      let w = write (moved b i) i x in
      split_at w b.size i h
      ∙ ap₂ ◌++◌
          (slice-same w b.array 0 0 i (λ j g.
            ap w (omega arith)
            ∙ write_other (moved b i) i j x (omega arith)
            ∙ moved_low b i j g
            ∙ ap b.array (omega arith)))
          (ap₂ ◌∷◌ (write_self (moved b i) i x) (
            slice-same w b.array (i + 1) (0 + i) (b.size - i) (λ k g.
              write_other (moved b i) i (i + 1 + k) x (omega arith)
              ∙ moved_high b i k g
              ∙ ap b.array (omega arith))))
      ∙ sym (insert_nth-slice b.array 0 b.size i x h)

  -- `remove_at` at a place in range.
  abbrev pub without : Block A → ℕ → Block A
  without b i = record { size = b.size - 1; array = closed b i }

  pub remove_at_lem : (b : Block A) (i : ℕ) → i < b.size → remove_at b i ≡ some (without b i)
  unfolding remove_at closed
  remove_at_lem b i h = rw (lt→ltb i b.size h, remove_at) refl

  pub items-without :
      (b : Block A) (i : ℕ) → i < b.size → items (without b i) ≡ remove_nth i (items b)
  items-without b i h =
      ap (slice (closed b i) 0) (omega arith)
      ∙ slice-append (closed b i) 0 i (b.size - i - 1)
      ∙ ap₂ ◌++◌
          (slice-same (closed b i) b.array 0 0 i
            (λ j g. ap (closed b i) (omega arith) ∙ closed_low b i j g ∙ ap b.array (omega arith)))
          (slice-same (closed b i) b.array (0 + i) (0 + i + 1) (b.size - i - 1)
            (λ k g. ap (closed b i) (omega arith) ∙ closed_high b i k g ∙ ap b.array (omega arith)))
      ∙ sym (remove_nth-slice b.array 0 b.size i h)

  pub items-append : (b : Block A) (x : A) → items (append b x) ≡ items b ++ (x ∷ [])
  unfolding append
  items-append b x =
      let w = write b.array b.size x in
      slice-append w 0 b.size 1
      ∙ ap₂ ◌++◌
          (slice-same w b.array 0 0 b.size
            (λ j g. write_other b.array b.size (0 + j) x (omega arith)))
          (ap (λ y. y ∷ []) (ap w (omega arith) ∙ write_self b.array b.size x))

  pub items-preappend : (b : Block A) (x : A) → items (preappend b x) ≡ x ∷ items b
  unfolding preappend insert_at
  items-preappend b x =
      ap
        (λ n. items record {
          size = b.size + 1;
          array = write (if ltb 0 b.size then memcpy b.array 1 b.array 0 n else b.array) 0 x;
        })
        (omega arith)
      ∙ items-insert_at b 0 x (omega arith)

  pub items-copy_from :
      (b other : Block A) (start num : ℕ)
      → items (copy_from b other start num) ≡ items b ++ slice other.array start num
  unfolding copy_from
  items-copy_from b other start num =
      let w = memcpy b.array b.size other.array start num in
      slice-append w 0 b.size num
      ∙ ap₂ ◌++◌
          (slice-same w b.array 0 0 b.size
            (λ j g. memcpy_out b.array b.size other.array start num (0 + j) (inl (omega arith))))
          (slice-same w other.array (0 + b.size) start num
            (λ k g. ap w (omega arith) ∙ memcpy_in b.array b.size other.array start num k g))

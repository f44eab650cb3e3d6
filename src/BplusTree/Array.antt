-- ===== src/BplusTree/Array.antt =====
-- Items in a row from the start of a node, where `memcpy` and `memmove` move several at a time.
use miniob_basic.Base.{
  ℕ, zero, suc, ◌+◌, ◌-◌, ◌≤◌, ◌<◌, ◌≡◌, refl, ap, ap₂, ◌∙◌, ◌&&◌, List, [], ◌∷◌, ◌++◌, ◌⊎◌, ◌==◌,
  ltb, leb, le→leb, lt→ltb, if◌then◌else◌, arith, length,
}

module _ {ℓ} {A : Type ℓ} where
  -- `n` items from place `s` of `src` go to place `d` of `dst`; `memmove` when both are one array.
  unfoldable pub memcpy : (dst : ℕ → A) (d : ℕ) (src : ℕ → A) (s n : ℕ) → ℕ → A
  memcpy dst d src s n i = if leb d i && ltb i (d + n) then src (s + (i - d)) else dst i

  unfoldable pub write : (ℕ → A) → ℕ → A → ℕ → A
  write array index item i = if i == index then item else array i

  -- `n` items from the place `s` on.
  abbrev pub slice : (ℕ → A) → ℕ → ℕ → List A
  slice array s zero = []
  slice array s (suc n) = array s ∷ slice array (suc s) n

  pub slice-same :
      (a b : ℕ → A) (s r n : ℕ)
      → ((i : ℕ) → i < n → a (s + i) ≡ b (r + i))
      → slice a s n ≡ slice b r n
  slice-same a b s r zero e = refl
  slice-same a b s r (suc n) e =
      ap₂ ◌∷◌ (ap a (omega arith) ∙ e 0 (omega arith) ∙ ap b (omega arith)) (
        slice-same a b (suc s) (suc r) n
          (λ i h. ap a (omega arith) ∙ e (suc i) (omega arith) ∙ ap b (omega arith)))

  pub slice-append : (a : ℕ → A) (s m n : ℕ) → slice a s (m + n) ≡ slice a s m ++ slice a (s + m) n
  slice-append a s zero n = ap₂ (slice a) (omega arith) (omega arith)
  slice-append a s (suc m) n =
      let e : suc m + n ≡ suc (m + n) = omega arith in
      rw e (
        ap (◌∷◌ (a s))
          (slice-append a (suc s) m n ∙ ap (λ r. slice a (suc s) m ++ slice a r n) (omega arith)))

  pub length-slice : (a : ℕ → A) (s n : ℕ) → length (slice a s n) ≡ n
  length-slice a s zero = refl
  length-slice a s (suc n) = ap suc (length-slice a (suc s) n)

  pub memcpy_in :
      (dst : ℕ → A) (d : ℕ) (src : ℕ → A) (s n i : ℕ)
      → i < n
      → memcpy dst d src s n (d + i) ≡ src (s + i)
  unfolding memcpy
  memcpy_in dst d src s n i h =
      rw (le→leb d (d + i) (omega arith), lt→ltb (d + i) (d + n) (omega arith), memcpy)
        (ap src (omega arith))

  pub memcpy_out :
      (dst : ℕ → A) (d : ℕ) (src : ℕ → A) (s n i : ℕ)
      → (i < d) ⊎ (d + n ≤ i)
      → memcpy dst d src s n i ≡ dst i
  unfolding memcpy
  memcpy_out dst d src s n i h = ground arith

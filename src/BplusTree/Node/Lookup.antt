-- ===== src/BplusTree/Node/Lookup.antt =====
-- The binary search of a node finds what a walk over its items finds.
use miniob_basic.Base.{
  ℕ, zero, suc, ◌+◌, ◌-◌, ◌<◌, ◌≡◌, ◌≢◌, refl, sym, ap, ap₂, subst, ◌∙◌, inl, inr, Bool, true,
  false, List, [], ◌∷◌, arith, lt→not_leb, le→leb, dec_lt, ==_ne, if◌then◌else◌, some, fun_ext,
}
use miniob_basic.Base.Int.{ℤ}
use miniob_basic.LowerBound.{Sign, below, equal, above, sign, lower_bound}
use miniob_basic.LowerBound.Search.{IsLowerBound, lower_bound-IsLowerBound, Sign-cases}
use miniob_basic.BplusTree.Array.{slice}
use miniob_basic.BplusTree.Block.{Block}
use miniob_basic.BplusTree.Block.Laws.{items, without, remove_at_lem}
use miniob_basic.BplusTree.Order.{IsOrder, All, IsAscending, place, lower_bound_unique, place_step}
use miniob_basic.BplusTree.Node.{child_place, lookup_leaf, lookup_internal, remove_key}

All-slice {ℓ κ} :
    {A : Type ℓ} (P : A → Type κ) (a : ℕ → A) (s n i : ℕ)
    → All P (slice a s n)
    → i < n
    → P (a (s + i))
All-slice P a s zero i h g = absurd (omega arith)
All-slice P a s (suc n) zero h g = subst (λ k. P (a k)) (omega arith) (h.0)
All-slice P a s (suc n) (suc i) h g =
    subst (λ k. P (a k)) (omega arith) (All-slice P a (suc s) n i (h.1) (omega arith))

module _ {ℓ} {K : Type ℓ} (cmp : K → K → ℤ) (order : IsOrder cmp) where
  -- What stands behind an item that is not below a key is above it.
  above_behind :
      (x y key : K) → sign (cmp x key) ≢ below → sign (cmp x y) ≡ below → sign (cmp y key) ≡ above
  above_behind x y key n h = elim (Sign-cases (sign (cmp x key))) [
    | inl e ↦ absurd (n e)
    | inr (inl e) ↦ order.above_of_below key y (sym (order.like x key y e) ∙ h)
    | inr (inr e) ↦
        order.above_of_below key y (order.below_trans key x y (order.below_of_above x key e) h)
  ]

module _ {ℓ κ} {K : Type ℓ} {V : Type κ} (cmp : K → K → ℤ) (order : IsOrder cmp) where
  ascending_at :
      (a : ℕ → K × V) (s n i j : ℕ)
      → IsAscending cmp (slice a s n)
      → i < j
      → j < n
      → sign (cmp (a (s + i)).0 (a (s + j)).0) ≡ below
  ascending_at a s zero i j h p q = absurd (omega arith)
  ascending_at a s (suc n) zero zero h p q = absurd (omega arith)
  ascending_at a s (suc n) zero (suc j) h p q =
      ap₂ (λ k m. sign (cmp (a k).0 (a m).0)) (omega arith) (omega arith)
      ∙ All-slice (λ y. sign (cmp (a s).0 y.0) ≡ below) a (suc s) n j (h.0) (omega arith)
  ascending_at a s (suc n) (suc i) zero h p q = absurd (omega arith)
  ascending_at a s (suc n) (suc i) (suc j) h p q =
      ap₂ (λ k m. sign (cmp (a k).0 (a m).0)) (omega arith) (omega arith)
      ∙ ascending_at a (suc s) n i j (h.1) (omega arith) (omega arith)

  search-IsLowerBound :
      (a : ℕ → K × V) (s n : ℕ) (key : K) (item : ℕ → K × V)
      → ((i : ℕ) → item i ≡ a (s + i))
      → IsAscending cmp (slice a s n)
      → IsLowerBound
          (λ i. sign (cmp (item i).0 key))
          n
          (lower_bound (λ (x : K × V) k. cmp x.0 k) item n key)
  search-IsLowerBound a s n key item same h =
      lower_bound-IsLowerBound (λ (x : K × V) k. cmp x.0 k) item key n
        (λ i j p q g. above_behind cmp order (item i).0 (item j).0 key g (
          ap₂ (λ (x y : K × V). sign (cmp x.0 y.0)) (same i) (same j)
          ∙ ascending_at a s n i j h p q))

  search-place :
      (a : ℕ → K × V) (s n : ℕ) (key : K) (item : ℕ → K × V)
      → ((i : ℕ) → item i ≡ a (s + i))
      → IsAscending cmp (slice a s n)
      → lower_bound (λ (x : K × V) k. cmp x.0 k) item n key ≡ place cmp key (slice a s n)
  search-place a s n key item same h =
      lower_bound_unique cmp a s n key (lower_bound (λ (x : K × V) k. cmp x.0 k) item n key) (
        subst (λ side. IsLowerBound side n (lower_bound (λ (x : K × V) k. cmp x.0 k) item n key))
          (fun_ext (λ i. ap (λ (x : K × V). sign (cmp x.0 key)) (same i)))
          (search-IsLowerBound a s n key item same h))

  -- The binary search in a leaf whose keys ascend finds the place that a walk over the items finds.
  pub lookup_leaf-place :
      (b : Block (K × V)) (key : K)
      → IsAscending cmp (items b)
      → lookup_leaf cmp b key ≡ place cmp key (items b)
  unfolding lookup_leaf
  lookup_leaf-place b key h =
      search-place b.array 0 b.size key b.array (λ i. ap b.array (omega arith)) h

-- The child that a walk over the separators finds: the last one whose separator is not above the key.
abbrev pub descend_step {ℓ} : {A : Type ℓ} → Sign → A → A → A
descend_step below here rest = rest
descend_step equal here rest = rest
descend_step above here rest = here

abbrev pub child_for {ℓ} : {K : Type ℓ} → (K → K → ℤ) → K → ℕ → List (K × ℕ) → ℕ
child_for cmp key page [] = page
child_for cmp key page (x ∷ xs) = descend_step (sign (cmp x.0 key)) page (child_for cmp key x.1 xs)

-- The child of a place and whether it was found.
abbrev child_index : ℕ × Bool → ℕ
child_index p = if p.1 then suc p.0 else p.0

child_index-step : (p : ℕ × Bool) → child_index (suc p.0, p.1) ≡ suc (child_index p)
child_index-step (n, true) = refl
child_index-step (n, false) = refl

module _ {ℓ} {K : Type ℓ} (cmp : K → K → ℤ) (order : IsOrder cmp) where
  child_for-above :
      (key : K) (x : K × ℕ) (xs : List (K × ℕ))
      → sign (cmp x.0 key) ≢ below
      → All (λ (y : K × ℕ). sign (cmp x.0 y.0) ≡ below) xs
      → child_for cmp key x.1 xs ≡ x.1
  child_for-above key x [] n h = refl
  child_for-above key x (y ∷ ys) n h =
      ap (λ s. descend_step s x.1 (child_for cmp key y.1 ys))
        (above_behind cmp order x.0 y.0 key n (h.0))

  child_for-place :
      (a : ℕ → K × ℕ) (s n : ℕ) (key : K)
      → IsAscending cmp (slice a (suc s) n)
      → (a (s + child_index (place cmp key (slice a (suc s) n)))).1
        ≡ child_for cmp key (a s).1 (slice a (suc s) n)
  child_for-place a s zero key h = ap (λ i. (a i).1) (omega arith)
  child_for-place a s (suc n) key h =
      let x = a (suc s) in
      let rest = slice a (suc (suc s)) n in
      let p = place cmp key rest in
      let at_sign : Sign → Type 0 = λ t.
        (a (s + child_index (place_step t p))).1
        ≡ descend_step t (a s).1 (child_for cmp key x.1 rest) in
      elim (Sign-cases (sign (cmp x.0 key))) [
        | inl e ↦ subst at_sign (sym e) (
            ap (λ i. (a (s + i)).1) (child_index-step p)
            ∙ ap (λ i. (a i).1) (omega arith)
            ∙ child_for-place a (suc s) n key (h.1))
        | inr (inl e) ↦
            subst at_sign (sym e)
              (ap (λ i. (a i).1) (omega arith) ∙ sym (child_for-above key x rest (λ f. cc) (h.0)))
        | inr (inr e) ↦ subst at_sign (sym e) (ap (λ i. (a i).1) (omega arith))
      ]

  child_place_lem :
      (b : Block (K × ℕ)) (key : K) (p : ℕ × Bool)
      → 0 < b.size
      → IsLowerBound (λ i. sign (cmp (b.array (i + 1)).0 key)) (b.size - 1) p
      → child_place cmp b key p ≡ (child_index p, p.0 + 1, p.1)
  child_place_lem b key (n, true) h v =
      let (g, e) = v.found refl in
      rw
        (
          lt→not_leb (n + 1) b.size (omega arith),
          order.equal_sym (b.array (n + 1)).0 key e,
          child_place,
        )
        (ap (λ m. (m, n + 1, true)) (omega arith))
  child_place_lem b key (n, false) h v = elim (dec_lt (n + 1) b.size) [
    | yes g ↦
        let e = order.below_of_above (b.array (n + 1)).0 key (v.not_found refl (omega arith)) in
        rw (lt→not_leb (n + 1) b.size g, e, child_place) (ap (λ m. (m, n + 1, false)) (omega arith))
    | no g ↦
        rw (le→leb b.size (n + 1) (omega arith), child_place)
          (ap (λ m. (m, n + 1, false)) (omega arith))
  ]

  child_index-lt :
      (side : ℕ → Sign) (n : ℕ) (p : ℕ × Bool)
      → IsLowerBound side (n - 1) p
      → 0 < n
      → child_index p < n
  child_index-lt side n (k, true) v h = let (g, e) = v.found refl in omega arith
  child_index-lt side n (k, false) v h = omega (arith, v.in_range)

  -- When the comparison is an order, in an internal node that is not empty and whose separators
  -- ascend, the binary search finds the child that a walk over
  -- the separators finds, and the place of a new separator.
  pub lookup_internal-child_for :
      (b : Block (K × ℕ)) (key : K)
      → 0 < b.size
      → IsAscending cmp (slice b.array 1 (b.size - 1))
      → ((lookup_internal cmp b key).0 < b.size)
        × ((b.array (lookup_internal cmp b key).0).1
            ≡ child_for cmp key (b.array 0).1 (slice b.array 1 (b.size - 1)))
        × ((lookup_internal cmp b key).1 ≡ (place cmp key (slice b.array 1 (b.size - 1))).0 + 1)
  unfolding lookup_internal
  lookup_internal-child_for b key h s =
      let item : ℕ → K × ℕ = λ i. b.array (i + 1) in
      let same = λ (i : ℕ). ap b.array (add_comm_1 i) in
      let e = search-place cmp order b.array 1 (b.size - 1) key item same s in
      let p = place cmp key (slice b.array 1 (b.size - 1)) in
      let v =
        subst (IsLowerBound (λ i. sign (cmp (item i).0 key)) (b.size - 1)) e
          (search-IsLowerBound cmp order b.array 1 (b.size - 1) key item same s) in
      let r : lookup_internal cmp b key ≡ (child_index p, p.0 + 1, p.1) =
        rw (==_ne b.size 0 (omega arith), lookup_internal)
          (ap (child_place cmp b key) e ∙ child_place_lem b key p h v) in
      (
        subst (λ i. i < b.size) (sym (ap (λ t. t.0) r))
            (child_index-lt (λ i. sign (cmp (item i).0 key)) b.size p v h),
        ap (λ t. (b.array t.0).1) r
            ∙ ap (λ i. (b.array i).1) (omega arith)
            ∙ child_for-place b.array 0 (b.size - 1) key s,
        ap (λ t. t.1) r,
      )
    where
      add_comm_1 : (i : ℕ) → i + 1 ≡ 1 + i
      add_comm_1 i = omega arith

module _ {ℓ κ} {K : Type ℓ} {V : Type κ} (cmp : K → K → ℤ) where
  pub remove_key-of_found :
      (b : Block (K × V)) (key : K) (p : ℕ)
      → lookup_leaf cmp b key ≡ (p, true)
      → p < b.size
      → remove_key cmp b key ≡ some (1, without b p)
  unfolding remove_key
  remove_key-of_found b key p e h = rw (e, remove_at_lem b p h, remove_key) refl

  pub remove_key-of_missing :
      (b : Block (K × V)) (key : K) (p : ℕ)
      → lookup_leaf cmp b key ≡ (p, false)
      → remove_key cmp b key ≡ some (0, b)
  unfolding remove_key
  remove_key-of_missing b key p e = rw (e, remove_key) refl

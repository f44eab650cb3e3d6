-- ===== src/BplusTree/Key.antt =====
-- bplus_tree.h: KeyComparator, the order of attribute and record identifier together.
use miniob_basic.Base.{◌≡◌, refl, sym, ap₂, ◌∙◌, ◌⊎◌, inl, inr}
use miniob_basic.Base.Int.{ℤ}
use miniob_basic.LowerBound.{Sign, below, equal, above, sign}
use miniob_basic.LowerBound.Search.{Sign-cases}
use miniob_basic.BplusTree.Order.{IsOrder}

abbrev pub first_different : Sign → Sign → Sign
first_different below s = below
first_different equal s = s
first_different above s = above

module _ {ℓ κ} {U : Type ℓ} {R : Type κ} (attr_comparator : U → U → ℤ) (compare : R → R → ℤ) where
  unfoldable pub key_comparator : U × R → U × R → ℤ
  key_comparator (u, rid1) (v, rid2) =
      let result = attr_comparator u v in
      elim (sign result) [ equal ↦ compare rid1 rid2 | below ↦ result | above ↦ result ]

  sign-key_comparator :
      (x y : U × R)
      → sign (key_comparator x y)
        ≡ first_different (sign (attr_comparator x.0 y.0)) (sign (compare x.1 y.1))
  unfolding key_comparator
  sign-key_comparator (u, r) (v, s) = elim (Sign-cases (sign (attr_comparator u v))) [
    | inl e ↦ rw (e, key_comparator) e
    | inr (inl e) ↦ rw (e, key_comparator) refl
    | inr (inr e) ↦ rw (e, key_comparator) e
  ]

-- The first difference, when it is below or above, is that of the first or else that of the second.
is_below : (a b : Sign) → first_different a b ≡ below → (a ≡ below) ⊎ ((a ≡ equal) × (b ≡ below))
is_below below b h = inl refl
is_below equal b h = inr (refl, h)
is_below above b h = absurd (cc)

is_above : (a b : Sign) → first_different a b ≡ above → (a ≡ above) ⊎ ((a ≡ equal) × (b ≡ above))
is_above below b h = absurd (cc)
is_above equal b h = inr (refl, h)
is_above above b h = inl refl

is_equal : (a b : Sign) → first_different a b ≡ equal → (a ≡ equal) × (b ≡ equal)
is_equal below b h = absurd (cc)
is_equal equal b h = (refl, h)
is_equal above b h = absurd (cc)

module _ {ℓ κ} {U : Type ℓ} {R : Type κ} (attr_comparator : U → U → ℤ) (compare : R → R → ℤ)
    (attr : IsOrder attr_comparator) (rid : IsOrder compare) where
  -- What is below something stays below what equals it.
  below_equal :
      (u v w : U)
      → sign (attr_comparator u v) ≡ below
      → sign (attr_comparator v w) ≡ equal
      → sign (attr_comparator u w) ≡ below
  below_equal u v w h e =
      attr.below_of_above w u (sym (attr.like v w u e) ∙ attr.above_of_below u v h)

  signs :
      (x y : U × R) (s : Sign)
      → sign (key_comparator attr_comparator compare x y) ≡ s
      → first_different (sign (attr_comparator x.0 y.0)) (sign (compare x.1 y.1)) ≡ s
  signs x y s h = sym (sign-key_comparator attr_comparator compare x y) ∙ h

  both :
      (x y : U × R) (a b : Sign)
      → sign (attr_comparator x.0 y.0) ≡ a
      → sign (compare x.1 y.1) ≡ b
      → sign (key_comparator attr_comparator compare x y) ≡ first_different a b
  both x y a b e f = sign-key_comparator attr_comparator compare x y ∙ ap₂ first_different e f

  first :
      (x y : U × R) (a : Sign)
      → sign (attr_comparator x.0 y.0) ≡ a
      → sign (key_comparator attr_comparator compare x y)
        ≡ first_different a (sign (compare x.1 y.1))
  first x y a e = both x y a (sign (compare x.1 y.1)) e refl

  -- KeyComparator is an order of attribute and record identifier when both comparisons are orders.
  pub key_comparator-IsOrder : IsOrder (key_comparator attr_comparator compare)
  key_comparator-IsOrder = record {
    above_of_below = λ x y h.
        elim (is_below (sign (attr_comparator x.0 y.0)) (sign (compare x.1 y.1))
          (signs x y below h)) [
            | inl a ↦ first y x above (attr.above_of_below x.0 y.0 a)
            | inr (a, b) ↦
                both y x equal above (attr.equal_sym x.0 y.0 a) (rid.above_of_below x.1 y.1 b)
          ];
    below_of_above = λ x y h.
        elim (is_above (sign (attr_comparator x.0 y.0)) (sign (compare x.1 y.1))
          (signs x y above h)) [
            | inl a ↦ first y x below (attr.below_of_above x.0 y.0 a)
            | inr (a, b) ↦
                both y x equal below (attr.equal_sym x.0 y.0 a) (rid.below_of_above x.1 y.1 b)
          ];
    equal_sym = λ x y h.
        let (a, b) =
          is_equal (sign (attr_comparator x.0 y.0)) (sign (compare x.1 y.1)) (signs x y equal h) in
        both y x equal equal (attr.equal_sym x.0 y.0 a) (rid.equal_sym x.1 y.1 b);
    below_trans = λ x y z h g.
        elim (is_below (sign (attr_comparator x.0 y.0)) (sign (compare x.1 y.1))
          (signs x y below h)) [
            | inl a ↦
                elim (is_below (sign (attr_comparator y.0 z.0)) (sign (compare y.1 z.1))
                  (signs y z below g)) [
                    | inl c ↦ first x z below (attr.below_trans x.0 y.0 z.0 a c)
                    | inr (c, d) ↦ first x z below (below_equal x.0 y.0 z.0 a c)
                  ]
            | inr (a, b) ↦
                elim (is_below (sign (attr_comparator y.0 z.0)) (sign (compare y.1 z.1))
                  (signs y z below g)) [
                    | inl c ↦ first x z below (attr.like x.0 y.0 z.0 a ∙ c)
                    | inr (c, d) ↦
                        both x z equal below (attr.like x.0 y.0 z.0 a ∙ c)
                          (rid.below_trans x.1 y.1 z.1 b d)
                  ]
          ];
    like = λ x y z h.
        let (a, b) =
          is_equal (sign (attr_comparator x.0 y.0)) (sign (compare x.1 y.1)) (signs x y equal h) in
        sign-key_comparator attr_comparator compare x z
        ∙ ap₂ first_different (attr.like x.0 y.0 z.0 a) (rid.like x.1 y.1 z.1 b)
        ∙ sym (sign-key_comparator attr_comparator compare y z);
  }

-- ===== src/LowerBound/Search.antt =====
-- Binary search finds the first item that is not below the value.
use miniob_basic.Base.{
  ℕ, zero, suc, ◌+◌, ◌-◌, ◌/◌, ◌≤◌, ◌<◌, ◌≡◌, ◌≢◌, refl, ap, ◌∙◌, Bool, true, false, arith, ◌⊎◌,
  inl, inr, ==_ne, ==_iff, ℕ_discrete,
}
use miniob_basic.Base.Int.{ℤ}
use miniob_basic.LowerBound.{Sign, below, equal, above, sign, lower_bound_from, lower_bound}

-- Sorted without repetition, as the search sees it: behind an item that is not below the value
-- all items are above it.
abbrev pub IsSorted : (ℕ → Sign) → ℕ → Type 0
IsSorted side count = (i j : ℕ) → i < j → j < count → side i ≢ below → side j ≡ above

-- Items in front of the place are below the value, items behind it are above; the item at the place
-- is the value when it was found, and above it otherwise.
pub record IsLowerBound (side : ℕ → Sign) (count : ℕ) (result : ℕ × Bool) : Type 0 where
  pub in_range : result.0 ≤ count
  pub before : (i : ℕ) → i < result.0 → side i ≡ below
  pub behind : (i : ℕ) → result.0 < i → i < count → side i ≡ above
  pub found : result.1 ≡ true → (result.0 < count) × (side (result.0) ≡ equal)
  pub not_found : result.1 ≡ false → result.0 < count → side (result.0) ≡ above

-- What the search knows while `last_count` items from `first` on are left.
record IsNarrowed (side : ℕ → Sign) (count first last_count : ℕ) : Type 0 where
  in_range : first + last_count ≤ count
  before : (i : ℕ) → i < first → side i ≡ below
  behind : (i : ℕ) → first + last_count ≤ i → i < count → side i ≡ above

IsNarrowed-end :
    (side : ℕ → Sign) (count first last_count : ℕ)
    → IsNarrowed side count first last_count
    → last_count ≡ 0
    → IsLowerBound side count (first, false)
IsNarrowed-end side count first last_count v e = record {
  in_range = omega (arith, v.in_range);
  before = v.before;
  behind = λ i h c. v.behind i (omega arith) c;
  found = λ f. cc;
  not_found = λ f c. v.behind first (omega arith) c;
}

pub Sign-cases : (s : Sign) → (s ≡ below) ⊎ (s ≡ equal) ⊎ (s ≡ above)
Sign-cases below = inl refl
Sign-cases equal = inr (inl refl)
Sign-cases above = inr (inr refl)

module _ (side : ℕ → Sign) (count : ℕ) (sorted : IsSorted side count) where
  -- In front of an item that is not above the value all items are below it.
  sorted_before : (i j : ℕ) → i < j → j < count → side j ≢ above → side i ≡ below
  sorted_before i j h c n = elim (Sign-cases (side i)) [
    | inl e ↦ e
    | inr (inl e) ↦ absurd (n (sorted i j h c (λ f. cc)))
    | inr (inr e) ↦ absurd (n (sorted i j h c (λ f. cc)))
  ]

  equal_at : (iter : ℕ) → iter < count → side iter ≡ equal → IsLowerBound side count (iter, true)
  equal_at iter c e = record {
    in_range = omega arith;
    before = λ i h. sorted_before i iter h c (λ f. cc);
    behind = λ i h d. sorted iter i h d (λ f. cc);
    found = λ f. (c, e);
    not_found = λ f. cc;
  }

  below_at :
      (first last_count step : ℕ)
      → IsNarrowed side count first last_count
      → step < last_count
      → side (first + step) ≡ below
      → IsNarrowed side count (first + step + 1) (last_count - (step + 1))
  below_at first last_count step v h e = record {
    in_range = omega (arith, v.in_range);
    before = λ i d. elim (ℕ_discrete i (first + step)) [
      | yes q ↦ ap side q ∙ e
      | no q ↦ sorted_before i (first + step) (omega arith) (omega (arith, v.in_range)) (λ f. cc)
    ];
    behind = λ i d. v.behind i (omega arith);
  }

  above_at :
      (first last_count step : ℕ)
      → IsNarrowed side count first last_count
      → step < last_count
      → side (first + step) ≡ above
      → IsNarrowed side count first step
  above_at first last_count step v h e = record {
    in_range = omega (arith, v.in_range);
    before = v.before;
    behind = λ i d f. elim (ℕ_discrete i (first + step)) [
      | yes q ↦ ap side q ∙ e
      | no q ↦ sorted (first + step) i (omega arith) f (λ g. cc)
    ];
  }

module _ {ℓ ℓ'} {A : Type ℓ} {B : Type ℓ'} (comp : A → B → ℤ) (item : ℕ → A) (val : B) where
  -- On which side of the value an item stands.
  abbrev pub side_of : ℕ → Sign
  side_of i = sign (comp (item i) val)

  lower_bound_from_lem :
      (count fuel first last_count : ℕ)
      → IsSorted side_of count
      → IsNarrowed side_of count first last_count
      → last_count ≤ fuel
      → IsLowerBound side_of count (lower_bound_from comp item val fuel first last_count)
  unfolding lower_bound_from
  lower_bound_from_lem count zero first last_count sorted v h =
      IsNarrowed-end side_of count first last_count v (omega arith)
  lower_bound_from_lem count (suc fuel) first last_count sorted v h =
      elim (ℕ_discrete last_count 0) [
        | yes e ↦ rw ((==_iff last_count 0).1 e) (IsNarrowed-end side_of count first last_count v e)
        | no e ↦
            let step = last_count / 2 in
            rw (==_ne last_count 0 e) (elim (Sign-cases (side_of (first + step))) [
              | inl s ↦ rw s (
                  lower_bound_from_lem count fuel (first + step + 1) (last_count - (step + 1))
                    sorted (below_at side_of count sorted first last_count step v (omega arith) s)
                    (omega arith))
              | inr (inl s) ↦
                  rw s (equal_at side_of count sorted (first + step) (omega (arith, v.in_range)) s)
              | inr (inr s) ↦ rw s (
                  lower_bound_from_lem count fuel first step sorted
                    (above_at side_of count sorted first last_count step v (omega arith) s)
                    (omega arith))
            ])
      ]

  -- On a range that is sorted without repetition, `lower_bound` ends, its result is the first place
  -- whose item is not below the value (the end if all are below it), and `_found` tells whether the
  -- item there is the value.
  pub lower_bound-IsLowerBound :
      (count : ℕ)
      → IsSorted side_of count
      → IsLowerBound side_of count (lower_bound comp item count val)
  unfolding lower_bound
  lower_bound-IsLowerBound count sorted =
      lower_bound_from_lem count count 0 count sorted
        record {
          in_range = omega arith;
          before = λ i h. absurd (omega arith);
          behind = λ i h c. absurd (omega arith);
        }
        (omega arith)

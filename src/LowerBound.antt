-- ===== src/LowerBound.antt =====
-- deps/common/lang/lower_bound.h: the binary search of the B+ tree. A range of iterators is the
-- number of its items and a function from a place in it to the item there.
pub mod Search
mod Tests
use miniob_basic.Base.{ℕ, zero, suc, ◌+◌, ◌-◌, ◌/◌, Bool, true, false, ◌==◌, if◌then◌else◌}
use miniob_basic.Base.Int.{ℤ, pos, negsuc}

-- What a comparison says: below, equal or above.
pub data Sign : Type 0 where
  below : Sign
  equal : Sign
  above : Sign

abbrev pub sign : ℤ → Sign
sign (negsuc n) = below
sign (pos zero) = equal
sign (pos (suc n)) = above

-- The loop, with fuel: the place where the search starts, and how many items are left.
unfoldable pub lower_bound_from {ℓ ℓ'} :
    {A : Type ℓ} {B : Type ℓ'} → (A → B → ℤ) → (ℕ → A) → B → ℕ → ℕ → ℕ → ℕ × Bool
lower_bound_from comp item val zero first last_count = (first, false)
lower_bound_from comp item val (suc fuel) first last_count =
    let step = last_count / 2 in
    let iter = first + step in
    if last_count == 0 then (first, false) else elim (sign (comp (item iter) val)) [
      | equal ↦ (iter, true)
      | below ↦ lower_bound_from comp item val fuel (iter + 1) (last_count - (step + 1))
      | above ↦ lower_bound_from comp item val fuel first step
    ]

-- The place of the result, and the flag that `_found` receives.
unfoldable pub lower_bound {ℓ ℓ'} :
    {A : Type ℓ} {B : Type ℓ'} → (A → B → ℤ) → (ℕ → A) → ℕ → B → ℕ × Bool
lower_bound comp item count val = lower_bound_from comp item val count 0 count

-- `Comparator<T>::operator()` over the `<` of the type.
abbrev pub comparator {ℓ} : {A : Type ℓ} → (A → A → Bool) → A → A → ℤ
comparator less v1 v2 = if less v1 v2 then negsuc 0 else if less v2 v1 then pos 1 else pos 0

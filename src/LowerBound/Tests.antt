-- ===== src/LowerBound/Tests.antt =====
-- A search among three keys.
use miniob_basic.Base.{ℕ, zero, suc, ◌≡◌, refl, true, false, [], ◌∷◌, ltb, get_or, arith}
use miniob_basic.Base.Int.{ℤ}
use miniob_basic.LowerBound.{comparator, lower_bound, lower_bound_from}
use miniob_basic.LowerBound.Search.{IsSorted, IsLowerBound, side_of, lower_bound-IsLowerBound}

abbrev key : ℕ → ℕ
key i = get_or (2 ∷ 5 ∷ 9 ∷ []) i 0

abbrev compare_keys : ℕ → ℕ → ℤ
compare_keys = comparator ltb

keys-IsSorted : IsSorted (side_of compare_keys key 5) 3
keys-IsSorted zero zero h c n = absurd (omega arith)
keys-IsSorted zero (suc j) h c n = absurd (n refl)
keys-IsSorted (suc i) zero h c n = absurd (omega arith)
keys-IsSorted (suc i) (suc zero) h c n = absurd (omega arith)
keys-IsSorted (suc i) (suc (suc zero)) h c n = refl
keys-IsSorted (suc i) (suc (suc (suc j))) h c n = absurd (omega arith)

lower_bound-IsLowerBound_example :
    IsLowerBound (side_of compare_keys key 5) 3 (lower_bound compare_keys key 3 5)
lower_bound-IsLowerBound_example = lower_bound-IsLowerBound compare_keys key 5 3 keys-IsSorted

find_present : lower_bound compare_keys key 3 5 ≡ (1, true)
unfolding lower_bound lower_bound_from
find_present = refl

find_absent : lower_bound compare_keys key 3 6 ≡ (2, false)
unfolding lower_bound lower_bound_from
find_absent = refl

find_behind : lower_bound compare_keys key 3 10 ≡ (3, false)
unfolding lower_bound lower_bound_from
find_behind = refl

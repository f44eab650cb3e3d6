-- ===== src/Mutex/Balance.antt =====
-- A shared lock that is given back leaves the mutex as it was.
use miniob_basic.Base.{zero, suc, ◌≡◌, refl, sym, ap, ◌∙◌, Bool-cases, some, inl, inr}
use miniob_basic.Base.Int.{ℤ, pos, negsuc, inc, dec, is_pos}
use miniob_basic.Mutex.{RecursiveSharedMutex, lock_shared, unlock_shared}

dec-inc : (x : ℤ) → dec (inc x) ≡ x
dec-inc (pos n) = refl
dec-inc (negsuc zero) = refl
dec-inc (negsuc (suc n)) = refl

pub unlock_shared-lock_shared :
    (m m' : RecursiveSharedMutex) → lock_shared m ≡ some m' → unlock_shared m' ≡ m
unfolding lock_shared unlock_shared
unlock_shared-lock_shared m m' h = elim (Bool-cases (is_pos m.exclusive_lock_count)) [
  | inl e ↦ absurd (cc (rw e at h))
  | inr e ↦
      ap unlock_shared (sym (cc (rw e at h)))
      ∙ ap (λ n. record m { shared_lock_count = n }) (dec-inc m.shared_lock_count)
]

-- ===== src/Mutex/Tests.antt =====
-- Thread 7 takes the lock twice, thread 8 waits for it.
use miniob_basic.Base.{ℕ, ◌≡◌, ◌≢◌, ◌↔◌, ◌⊎◌, refl, false, none, List, [], ◌∷◌, replicate}
use miniob_basic.Mutex.{lock_shared, try_lock_shared, lock, unlock}
use miniob_basic.Mutex.Holders.{System, step_lock, step_unlock, here, Reachable, at_start, after}
use miniob_basic.Mutex.Held.{shared_by, exclusive_by}
use miniob_basic.Mutex.Exclusion.{lock-excludes, lock-waits}

abbrev once : System
once = record { mutex = exclusive_by 7 1; readers = []; writers = 7 ∷ [] }

abbrev twice : System
twice = record { mutex = exclusive_by 7 2; readers = []; writers = 7 ∷ 7 ∷ [] }

once-Reachable : Reachable once
unfolding lock
once-Reachable = after at_start (step_lock 7 refl)

twice-Reachable : Reachable twice
unfolding lock
twice-Reachable = after once-Reachable (step_lock 7 refl)

abbrev given_back : System
given_back = record { mutex = unlock (exclusive_by 7 1) 7; readers = []; writers = [] }

given_back-Reachable : Reachable given_back
given_back-Reachable = after once-Reachable (step_unlock 7 here)

lock-excludes_example :
    (twice.writers ≡ [])
    ⊎ ((twice.readers ≡ []) × (owner : ℕ) × (n : ℕ) × (twice.writers ≡ replicate n owner))
lock-excludes_example = lock-excludes twice twice-Reachable

lock-waits_example :
    ((lock_shared twice.mutex ≡ none) ↔ (twice.writers ≢ []))
    × (((try_lock_shared twice.mutex).0 ≡ false) ↔ (twice.writers ≢ []))
    × ((lock twice.mutex 8 ≡ none) ↔ (
        (twice.readers ≢ [])
        ⊎ ((owner : ℕ) × (rest : List ℕ) × (twice.writers ≡ owner ∷ rest) × (owner ≢ 8))))
lock-waits_example = lock-waits twice 8 twice-Reachable

-- A thread that holds the lock shared waits for itself when it asks for it exclusively.
lock-upgrade : lock (shared_by 1) 7 ≡ none
unfolding lock
lock-upgrade = refl

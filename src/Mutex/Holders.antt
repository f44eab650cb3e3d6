-- ===== src/Mutex/Holders.antt =====
-- Threads that use a RecursiveSharedMutex: who holds it, a thread once for each of its calls.
use miniob_basic.Base.{ℕ, suc, ◌≡◌, refl, ap, true, some, List, [], ◌∷◌, length}
use miniob_basic.Mutex.{
  RecursiveSharedMutex, recursive_shared_mutex, lock_shared, try_lock_shared, unlock_shared, lock,
  unlock,
}

-- `ys` is `xs` without one `x`.
pub data Removed {ℓ} {A : Type ℓ} (x : A) : List A → List A → Type ℓ where
  here : {xs : List A} → Removed x (x ∷ xs) xs
  there : {y : A} {xs ys : List A} → Removed x xs ys → Removed x (y ∷ xs) (y ∷ ys)

pub length-Removed {ℓ} :
    {A : Type ℓ} {x : A} {xs ys : List A} → Removed x xs ys → length xs ≡ suc (length ys)
length-Removed here = refl
length-Removed (there r) = ap suc (length-Removed r)

pub record System : Type 0 where
  pub mutex : RecursiveSharedMutex
  pub readers : List ℕ
  pub writers : List ℕ

-- Any thread may ask for the lock, one that holds it may give it back.
pub data Step : System → System → Type 0 where
  step_lock_shared :
      {s : System} {m : RecursiveSharedMutex} (thread : ℕ)
      → lock_shared s.mutex ≡ some m
      → Step s record { mutex = m; readers = thread ∷ s.readers; writers = s.writers }
  step_try_lock_shared :
      {s : System} {m : RecursiveSharedMutex} (thread : ℕ)
      → try_lock_shared s.mutex ≡ (true, m)
      → Step s record { mutex = m; readers = thread ∷ s.readers; writers = s.writers }
  step_unlock_shared :
      {s : System} {readers : List ℕ} (thread : ℕ)
      → Removed thread s.readers readers
      → Step s record { mutex = unlock_shared s.mutex; readers = readers; writers = s.writers }
  step_lock :
      {s : System} {m : RecursiveSharedMutex} (thread : ℕ)
      → lock s.mutex thread ≡ some m
      → Step s record { mutex = m; readers = s.readers; writers = thread ∷ s.writers }
  step_unlock :
      {s : System} {writers : List ℕ} (thread : ℕ)
      → Removed thread s.writers writers
      → Step s record { mutex = unlock s.mutex thread; readers = s.readers; writers = writers }

abbrev pub start : System
start = record { mutex = recursive_shared_mutex; readers = []; writers = [] }

-- The systems that calls in any order lead to.
pub data Reachable : System → Type 0 where
  at_start : Reachable start
  after : {s s' : System} → Reachable s → Step s s' → Reachable s'

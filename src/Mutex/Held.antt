-- ===== src/Mutex/Held.antt =====
-- The states that a RecursiveSharedMutex is brought to by the threads that use it.
use miniob_basic.Base.{
  subst, ℕ, zero, suc, ◌≡◌, ◌≢◌, refl, sym, ap, ◌∙◌, ◌⊎◌, inl, inr, true, false, none, some, List,
  [], ◌∷◌, length, replicate, ==_iff, ==_ne, ℕ_discrete,
}
use miniob_basic.Base.Int.{pos}
use miniob_basic.Mutex.{
  RecursiveSharedMutex, is_owner, lock_shared, try_lock_shared, unlock_shared, lock, unlock,
}
use miniob_basic.Mutex.Holders.{
  System, Step, step_lock_shared, step_try_lock_shared, step_unlock_shared, step_lock, step_unlock,
  Removed, here, there, length-Removed, Reachable, at_start, after,
}

abbrev pub shared_by : ℕ → RecursiveSharedMutex
shared_by n = record {
  shared_lock_count = pos n;
  exclusive_lock_count = pos 0;
  recursive_owner = none;
  recursive_count = pos 0;
}

abbrev pub exclusive_by : ℕ → ℕ → RecursiveSharedMutex
exclusive_by owner n = record {
  shared_lock_count = pos 0;
  exclusive_lock_count = pos 1;
  recursive_owner = some owner;
  recursive_count = pos n;
}

-- Readers hold the lock, or no one does, or one thread holds it, once or more.
pub data Held (s : System) : Type 0 where
  held_shared : s.writers ≡ [] → s.mutex ≡ shared_by (length s.readers) → Held s
  held_exclusive :
      (owner n : ℕ)
      → s.readers ≡ []
      → s.writers ≡ replicate (suc n) owner
      → s.mutex ≡ exclusive_by owner (suc n)
      → Held s

is_owner-exclusive_by : (t n : ℕ) → is_owner (exclusive_by t n) t ≡ true
is_owner-exclusive_by t n = (==_iff t t).1 refl

pub lock_shared-shared_by : (n : ℕ) → lock_shared (shared_by n) ≡ some (shared_by (suc n))
unfolding lock_shared
lock_shared-shared_by n = refl

pub lock_shared-exclusive_by : (t n : ℕ) → lock_shared (exclusive_by t n) ≡ none
unfolding lock_shared
lock_shared-exclusive_by t n = refl

pub try_lock_shared-shared_by : (n : ℕ) → try_lock_shared (shared_by n) ≡ (true, shared_by (suc n))
unfolding try_lock_shared
try_lock_shared-shared_by n = refl

pub try_lock_shared-exclusive_by :
    (t n : ℕ) → try_lock_shared (exclusive_by t n) ≡ (false, exclusive_by t n)
unfolding try_lock_shared
try_lock_shared-exclusive_by t n = refl

unlock_shared-shared_by : (n : ℕ) → unlock_shared (shared_by (suc n)) ≡ shared_by n
unfolding unlock_shared
unlock_shared-shared_by n = refl

pub lock-owner : (t n : ℕ) → lock (exclusive_by t n) t ≡ some (exclusive_by t (suc n))
unfolding lock
lock-owner t n = rw ((==_iff t t).1 refl) refl

pub lock-other : (t u n : ℕ) → t ≢ u → lock (exclusive_by t n) u ≡ none
unfolding lock
lock-other t u n h = rw (==_ne t u h) refl

pub lock-free : (t : ℕ) → lock (shared_by 0) t ≡ some (exclusive_by t 1)
unfolding lock
lock-free t = refl

pub lock-shared_by : (t n : ℕ) → lock (shared_by (suc n)) t ≡ none
unfolding lock
lock-shared_by t n = refl

unlock-last : (t : ℕ) → unlock (exclusive_by t 1) t ≡ shared_by 0
unfolding unlock
unlock-last t = rw ((==_iff t t).1 refl) refl

unlock-more : (t n : ℕ) → unlock (exclusive_by t (suc (suc n))) t ≡ exclusive_by t (suc n)
unfolding unlock
unlock-more t n = rw ((==_iff t t).1 refl) refl

Removed-nil {ℓ} : {A : Type ℓ} {x : A} {xs ys : List A} → Removed x xs ys → xs ≢ []
Removed-nil here e = cc
Removed-nil (there r) e = cc

Removed-replicate :
    (thread n owner : ℕ) (xs ys : List ℕ)
    → Removed thread xs ys
    → xs ≡ replicate (suc n) owner
    → (thread ≡ owner) × (ys ≡ replicate n owner)
Removed-replicate thread n owner xs ys here e = (cc, cc)
Removed-replicate thread zero owner xs ys (there r) e = absurd (Removed-nil r cc)
Removed-replicate thread (suc n) owner xs ys (there {y = y} {xs = us} {ys = zs} r) e =
    let (p, q) = Removed-replicate thread n owner us zs r cc in (p, cc)

pub List-cases {ℓ} :
    {A : Type ℓ} (xs : List A) → (xs ≡ []) ⊎ ((x : A) × (ys : List A) × (xs ≡ x ∷ ys))
List-cases [] = inl refl
List-cases (x ∷ xs) = inr (x, xs, refl)

Held-unlock :
    (m : RecursiveSharedMutex) (readers writers : List ℕ) (owner n : ℕ)
    → readers ≡ []
    → writers ≡ replicate n owner
    → m ≡ exclusive_by owner (suc n)
    → Held record { mutex = unlock m owner; readers = readers; writers = writers }
Held-unlock m readers writers owner zero r w e =
    held_shared w
      (ap (λ m'. unlock m' owner) e ∙ unlock-last owner ∙ ap (λ rs. shared_by (length rs)) (sym r))
Held-unlock m readers writers owner (suc n) r w e =
    held_exclusive owner n r w (ap (λ m'. unlock m' owner) e ∙ unlock-more owner n)

-- A step keeps the holders apart.
Held-Step : (s s' : System) → Held s → Step s s' → Held s'
Held-Step s s' (held_shared w e) (step_lock_shared thread h) =
    held_shared w (cc (lock_shared-shared_by (length s.readers)))
Held-Step s s' (held_exclusive owner n r w e) (step_lock_shared thread h) =
    absurd (cc (lock_shared-exclusive_by owner (suc n)))
Held-Step s s' (held_shared w e) (step_try_lock_shared thread h) =
    held_shared w (cc (try_lock_shared-shared_by (length s.readers)))
Held-Step s s' (held_exclusive owner n r w e) (step_try_lock_shared thread h) =
    absurd (cc (try_lock_shared-exclusive_by owner (suc n)))
Held-Step s s' (held_shared w e) (step_unlock_shared thread h) = held_shared w (
    ap unlock_shared (e ∙ ap shared_by (length-Removed h))
    ∙ unlock_shared-shared_by (length s'.readers))
Held-Step s s' (held_exclusive owner n r w e) (step_unlock_shared thread h) =
    absurd (Removed-nil h r)
Held-Step s s' (held_shared w e) (step_lock thread h) = elim (List-cases s.readers) [
  | inl r ↦
      held_exclusive thread 0 r (ap (◌∷◌ thread) w)
        (cc (ap (λ rs. shared_by (length rs)) r, lock-free thread))
  | inr (x, rs, r) ↦
      absurd (cc (ap (λ rs'. shared_by (length rs')) r, lock-shared_by thread (length rs)))
]
Held-Step s s' (held_exclusive owner n r w e) (step_lock thread h) =
    elim (ℕ_discrete owner thread) [
      | yes q ↦ held_exclusive owner (suc n) r (cc) (cc (lock-owner owner (suc n)))
      | no q ↦ absurd (cc (lock-other owner thread (suc n) q))
    ]
Held-Step s s' (held_shared w e) (step_unlock thread h) = absurd (Removed-nil h w)
Held-Step s s' (held_exclusive owner n r w e) (step_unlock thread h) =
    let (p, q) = Removed-replicate thread n owner s.writers s'.writers h w in
    subst (λ t. Held record { mutex = unlock s.mutex t; readers = s.readers; writers = s'.writers })
      (sym p) (Held-unlock s.mutex s.readers s'.writers owner n r q e)

pub Held-Reachable : {s : System} → Reachable s → Held s
Held-Reachable at_start = held_shared refl refl
Held-Reachable (after {s = s} {s' = s'} r h) = Held-Step s s' (Held-Reachable r) h

-- ===== src/Mutex/Exclusion.antt =====
-- Who may hold a RecursiveSharedMutex at once, and when a call has to wait.
use miniob_basic.Base.{
  ℕ, suc, ◌≡◌, ◌≢◌, ap, ◌∙◌, ◌⊎◌, inl, inr, false, none, List, [], ◌∷◌, length, replicate, ◌↔◌,
  ℕ_discrete,
}
use miniob_basic.Mutex.{recursive_shared_mutex, lock_shared, try_lock_shared, lock}
use miniob_basic.Mutex.Holders.{System, Reachable}
use miniob_basic.Mutex.Held.{
  shared_by, held_shared, held_exclusive, Held-Reachable, List-cases, lock_shared-shared_by,
  lock_shared-exclusive_by, try_lock_shared-shared_by, try_lock_shared-exclusive_by, lock-owner,
  lock-other, lock-free, lock-shared_by,
}

-- Whatever order threads take and give back a RecursiveSharedMutex in, it has no exclusive holder,
-- or it has no shared one and all its exclusive holds are one thread's.
pub lock-excludes :
    (s : System)
    → Reachable s
    → (s.writers ≡ [])
      ⊎ ((s.readers ≡ []) × (owner : ℕ) × (n : ℕ) × (s.writers ≡ replicate n owner))
lock-excludes s h = elim (Held-Reachable h) [
  | held_shared w e ↦ inl w
  | held_exclusive owner n r w e ↦ inr (r, owner, suc n, w)
]

-- When all that threads took is given back, the mutex is as it was made.
pub unlock-restores :
    (s : System) → Reachable s → s.readers ≡ [] → s.writers ≡ [] → s.mutex ≡ recursive_shared_mutex
unlock-restores s h r w = elim (Held-Reachable h) [
  | held_shared w' e ↦ e ∙ ap (λ rs. shared_by (length rs)) r
  | held_exclusive owner n r' w' e ↦ absurd (cc)
]

-- In every state that threads reach, a shared lock is given unless the mutex is held exclusively,
-- and `try_lock_shared` refuses in the same states; an exclusive lock is given unless the mutex is
-- held shared, be it by the same thread, or exclusively by another thread.
pub lock-waits :
    (s : System) (thread : ℕ)
    → Reachable s
    → ((lock_shared s.mutex ≡ none) ↔ (s.writers ≢ []))
      × (((try_lock_shared s.mutex).0 ≡ false) ↔ (s.writers ≢ []))
      × ((lock s.mutex thread ≡ none) ↔ (
          (s.readers ≢ [])
          ⊎ ((owner : ℕ) × (rest : List ℕ) × (s.writers ≡ owner ∷ rest) × (owner ≢ thread))))
lock-waits s thread h = elim (Held-Reachable h) [
  | held_shared w e ↦ (
    (λ q. absurd (cc (lock_shared-shared_by (length s.readers))), λ q. absurd (q w)),
    (
      λ q. absurd (
          cc (
            ap (λ m. (try_lock_shared m).0) e,
            ap (λ a. a.0) (try_lock_shared-shared_by (length s.readers)),
          )),
      λ q. absurd (q w),
    ),
    elim (List-cases s.readers) [
      | inl r ↦ (
        λ q. absurd (cc (ap (λ rs. shared_by (length rs)) r, lock-free thread)),
        λ q. elim q [ inl n ↦ absurd (n r) | inr (owner, rest, f, n) ↦ absurd (cc) ],
      )
      | inr (x, rs, r) ↦ (
        λ q. inl (λ n. cc),
        λ q. cc (ap (λ rs'. shared_by (length rs')) r, lock-shared_by thread (length rs)),
      )
    ],
  )
  | held_exclusive owner n r w e ↦ (
    (λ q f. cc, λ q. cc (lock_shared-exclusive_by owner (suc n))),
    (λ q f. cc, λ q. cc (try_lock_shared-exclusive_by owner (suc n))),
    elim (ℕ_discrete owner thread) [
      | yes q ↦ (
        λ f. absurd (cc (lock-owner owner (suc n))),
        λ f. elim f [ inl m ↦ absurd (m r) | inr (owner', rest, g, m) ↦ absurd (m cc) ],
      )
      | no q ↦
          (λ f. inr (owner, replicate n owner, w, q), λ f. cc (lock-other owner thread (suc n) q))
    ],
  )
]

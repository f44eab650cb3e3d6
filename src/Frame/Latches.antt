-- ===== src/Frame/Latches.antt =====
-- What taking and giving back a latch leaves of a frame.
use miniob_basic.Base.{
  ℕ, suc, ◌+◌, ◌≡◌, refl, sym, ap, ap₂, ◌∙◌, true, none, some, List, [], ◌∷◌, ◌==◌, if◌then◌else◌,
  Bool-cases, ==_iff, arith, inl, inr, Option-cases,
}
use miniob_basic.Base.Int.{pos, is_pos}
use miniob_basic.Mutex.{RecursiveSharedMutex, lock_shared, unlock_shared}
use miniob_basic.Mutex.Balance.{unlock_shared-lock_shared}
use miniob_basic.Frame.{
  Frame, stopped, done, find, count_up, erase, is_empty, read_latch, read_unlatch, write_latch,
  unpin,
}

find-count_up_new :
    (xid : ℕ) (lockers : List (ℕ × ℕ))
    → find xid lockers ≡ none
    → find xid (count_up xid lockers) ≡ some 1
find-count_up_new xid [] h = rw ((==_iff xid xid).1 refl) refl
find-count_up_new xid ((x, n) ∷ lockers) h = elim (Bool-cases (x == xid)) [
  | inl e ↦ absurd (cc (rw e at h))
  | inr e ↦ rw (e, e) (find-count_up_new xid lockers (rw e at h))
]

find-count_up :
    (xid n : ℕ) (lockers : List (ℕ × ℕ))
    → find xid lockers ≡ some n
    → find xid (count_up xid lockers) ≡ some (n + 1)
find-count_up xid n [] h = absurd (cc)
find-count_up xid n ((x, k) ∷ lockers) h = elim (Bool-cases (x == xid)) [
  | inl e ↦ rw (e, e) (cc (rw e at h))
  | inr e ↦ rw (e, e) (find-count_up xid n lockers (rw e at h))
]

erase-count_up :
    (xid : ℕ) (lockers : List (ℕ × ℕ))
    → find xid lockers ≡ none
    → erase xid (count_up xid lockers) ≡ lockers
erase-count_up xid [] h = rw ((==_iff xid xid).1 refl) refl
erase-count_up xid ((x, n) ∷ lockers) h = elim (Bool-cases (x == xid)) [
  | inl e ↦ absurd (cc (rw e at h))
  | inr e ↦ rw (e, e) (ap (◌∷◌ (x, n)) (erase-count_up xid lockers (rw e at h)))
]

-- What a read latch that is taken has found and done.
read_latch-done :
    (f f' : Frame) (xid : ℕ)
    → read_latch f xid ≡ done f'
    → (m : RecursiveSharedMutex) × (is_pos f.pin_count ≡ true)
      × (lock_shared f.mutex ≡ some m)
      × (f' ≡ record f { mutex = m; read_lockers = count_up xid f.read_lockers })
unfolding read_latch
read_latch-done f f' xid h = elim (Bool-cases (is_pos f.pin_count)) [
  | inr e ↦ absurd (cc (rw e at h))
  | inl e ↦ elim (Bool-cases (xid == f.write_locker)) [
    | inl d ↦ absurd (cc (rw (e, d) at h))
    | inr d ↦ elim (Option-cases (lock_shared f.mutex)) [
      | inl c ↦ absurd (cc (rw (e, d, c) at h))
      | inr (m, c) ↦ (m, e, c, cc (rw (e, d, c) at h))
    ]
  ]
]

-- What giving back a read latch does, when it is held `n` times, and the frame is pinned.
read_unlatch-done :
    (f : Frame) (xid n : ℕ)
    → is_pos f.pin_count ≡ true
    → find xid f.read_lockers ≡ some (suc n)
    → read_unlatch f xid
      ≡ done (record f {
        mutex = unlock_shared f.mutex;
        read_lockers = if suc n == 1 then erase xid f.read_lockers else f.read_lockers;
      })
unfolding read_unlatch
read_unlatch-done f xid n p h = rw (p, h) (ground arith)

-- A read latch that a session takes, not holding it yet, and gives back leaves the frame as it was.
pub read_unlatch-read_latch :
    (f f' : Frame) (xid : ℕ)
    → find xid f.read_lockers ≡ none
    → read_latch f xid ≡ done f'
    → read_unlatch f' xid ≡ done f
read_unlatch-read_latch f f' xid h e =
    let (m, p, q, g) = read_latch-done f f' xid e in
    let r = record f { mutex = m; read_lockers = count_up xid f.read_lockers } in
    ap (λ x. read_unlatch x xid) g
    ∙ read_unlatch-done r xid 0 p (find-count_up_new xid f.read_lockers h)
    ∙ ap₂ (λ m' ls. done (record f { mutex = m'; read_lockers = ls }))
        (unlock_shared-lock_shared f.mutex m q) (erase-count_up xid f.read_lockers h)

-- What is left of a frame whose read latch a session took twice and gave back twice: the lock is
-- free of it, but its entry still says that it holds the latch twice, so that it may not take the
-- write latch, and the last pin may not go.
pub record IsLeftover (f : Frame) (xid : ℕ) (f' : Frame) : Type 0 where
  pub same_mutex : f'.mutex ≡ f.mutex
  pub same_pins : f'.pin_count ≡ f.pin_count
  pub entry : find xid f'.read_lockers ≡ some 2
  pub write_stops : (this_thread : ℕ) → write_latch f' xid this_thread ≡ stopped
  pub unpin_stops : unpin (record f' { pin_count = pos 1 }) ≡ stopped

unpin-stopped :
    (f : Frame) (xid n : ℕ)
    → f.pin_count ≡ pos 1
    → find xid f.read_lockers ≡ some n
    → unpin f ≡ stopped
unfolding unpin
unpin-stopped f xid n p h = elim (Bool-cases (f.write_locker == 0)) [
  | inr w ↦ rw (p, w) refl
  | inl w ↦ elim (Bool-cases (is_empty f.read_lockers)) [
    | inr e ↦ rw (p, w, e) refl
    | inl e ↦ absurd (not_empty f.read_lockers e h)
  ]
]
  where
    not_empty : (ls : List (ℕ × ℕ)) → is_empty ls ≡ true → find xid ls ≡ some n → ⊥
    not_empty [] e g = cc
    not_empty (x ∷ ls) e g = cc

write_latch-stopped :
    (f : Frame) (xid n this_thread : ℕ)
    → is_pos f.pin_count ≡ true
    → find xid f.read_lockers ≡ some n
    → write_latch f xid this_thread ≡ stopped
unfolding write_latch
write_latch-stopped f xid n this_thread p h = rw (p, h) refl

-- A session that takes the read latch of a frame twice, not holding it yet, can give it back twice,
-- and leaves its entry behind.
pub read_unlatch-IsLeftover :
    (f f1 f2 : Frame) (xid : ℕ)
    → find xid f.read_lockers ≡ none
    → read_latch f xid ≡ done f1
    → read_latch f1 xid ≡ done f2
    → (f3 : Frame) × (f4 : Frame) × (read_unlatch f2 xid ≡ done f3)
      × (read_unlatch f3 xid ≡ done f4)
      × IsLeftover f xid f4
read_unlatch-IsLeftover f f1 f2 xid h e1 e2 =
    let (m1, p, q1, g1) = read_latch-done f f1 xid e1 in
    let (m2, p', q2, g2) = read_latch-done f1 f2 xid e2 in
    let lockers = count_up xid (count_up xid f.read_lockers) in
    let held : find xid lockers ≡ some 2 =
      find-count_up xid 1 (count_up xid f.read_lockers) (find-count_up_new xid f.read_lockers h) in
    let r2 = record f { mutex = m2; read_lockers = lockers } in
    let r3 = record f { mutex = unlock_shared m2; read_lockers = lockers } in
    let r4 = record f { mutex = unlock_shared (unlock_shared m2); read_lockers = lockers } in
    let g : f2 ≡ r2 =
      g2
      ∙ ap {A = Frame} (λ x. record x { mutex = m2; read_lockers = count_up xid x.read_lockers })
          g1 in
    (
      r3,
      r4,
      ap (λ x. read_unlatch x xid) g ∙ read_unlatch-done r2 xid 1 p held,
      read_unlatch-done r3 xid 1 p held,
      record {
        same_mutex =
            ap unlock_shared
              (unlock_shared-lock_shared m1 m2 (ap lock_shared (sym (ap (λ x. x.mutex) g1)) ∙ q2))
            ∙ unlock_shared-lock_shared f.mutex m1 q1;
        same_pins = refl;
        entry = held;
        write_stops = λ t. write_latch-stopped r4 xid 2 t p held;
        unpin_stops = unpin-stopped (record r4 { pin_count = pos 1 }) xid 2 refl held;
      },
    )

-- ===== src/Trx/Kit/Fresh.antt =====
-- Numbers of transactions are given out once.
use miniob_basic.Base.{
  ℕ, ◌+◌, ◌≡◌, ◌≤◌, ◌<◌, refl, true, false, Bool-cases, none, List, [], ◌∷◌, ◌++◌, arith, ltb, ◌==◌,
  inl, inr,
}
use miniob_basic.Base.Int.{ℤ, pos, negsuc, eq_ℤ, leb_ℤ}
use miniob_basic.Trx.Kit.{
  TrxObject, MvccTrxKit, create_trx, create_recovering, erase_trx, destroy_trx, find_in, find_trx,
  set_trx_id, start_trx,
}

-- All numbers in the list are `bound` at most.
abbrev AllUpTo : ℕ → List TrxObject → Type 0
AllUpTo bound [] = Unit
AllUpTo bound (t ∷ ts) = (leb_ℤ t.trx_id (pos bound) ≡ true) × AllUpTo bound ts

leb_ℤ-trans : (x : ℤ) (a b : ℕ) → leb_ℤ x (pos a) ≡ true → a ≤ b → leb_ℤ x (pos b) ≡ true
leb_ℤ-trans (pos n) a b h c = ground arith
leb_ℤ-trans (negsuc n) a b h c = refl

AllUpTo-more : (a b : ℕ) (ts : List TrxObject) → a ≤ b → AllUpTo a ts → AllUpTo b ts
AllUpTo-more a b [] c h = h
AllUpTo-more a b (t ∷ ts) c h = (leb_ℤ-trans t.trx_id a b (h.0) c, AllUpTo-more a b ts c (h.1))

AllUpTo-append :
    (a : ℕ) (ts : List TrxObject) (t : TrxObject)
    → AllUpTo a ts
    → leb_ℤ t.trx_id (pos a) ≡ true
    → AllUpTo a (ts ++ (t ∷ []))
AllUpTo-append a [] t h c = (c, h)
AllUpTo-append a (u ∷ ts) t h c = (h.0, AllUpTo-append a ts t (h.1) c)

AllUpTo-erase_trx :
    (a address : ℕ) (ts : List TrxObject) → AllUpTo a ts → AllUpTo a (erase_trx address ts)
AllUpTo-erase_trx a address [] h = h
AllUpTo-erase_trx a address (t ∷ ts) h = elim (Bool-cases (t.address == address)) [
  | inl e ↦ rw e (h.1)
  | inr e ↦ rw e (h.0, AllUpTo-erase_trx a address ts (h.1))
]

AllUpTo-set_trx_id :
    (a address : ℕ) (x : ℤ) (ts : List TrxObject)
    → leb_ℤ x (pos a) ≡ true
    → AllUpTo a ts
    → AllUpTo a (set_trx_id address x ts)
AllUpTo-set_trx_id a address x [] c h = h
AllUpTo-set_trx_id a address x (t ∷ ts) c h = elim (Bool-cases (t.address == address)) [
  | inl e ↦ rw e (c, h.1)
  | inr e ↦ rw e (h.0, AllUpTo-set_trx_id a address x ts c (h.1))
]

eq_ℤ-above : (x : ℤ) (a n : ℕ) → leb_ℤ x (pos a) ≡ true → a < n → eq_ℤ x (pos n) ≡ false
eq_ℤ-above (pos m) a n h c = ground arith
eq_ℤ-above (negsuc m) a n h c = refl

find_in-above : (a n : ℕ) (ts : List TrxObject) → AllUpTo a ts → a < n → find_in (pos n) ts ≡ none
find_in-above a n [] h c = refl
find_in-above a n (t ∷ ts) h c = elim (Bool-cases (eq_ℤ t.trx_id (pos n))) [
  | inl e ↦ absurd (cc (eq_ℤ-above t.trx_id a n (h.0) c))
  | inr e ↦ rw e (find_in-above a n ts (h.1) c)
]

-- The kits that calls in any order lead to.
pub data Reachable : MvccTrxKit → Type 0 where
  at_start : Reachable record { current_trx_id = 0; trxes = [] }
  created : {k : MvccTrxKit} (address : ℕ) → Reachable k → Reachable (create_trx k address)
  recovered :
      {k : MvccTrxKit} (address trx_id : ℕ)
      → Reachable k
      → Reachable (create_recovering k address trx_id)
  destroyed : {k : MvccTrxKit} (address : ℕ) → Reachable k → Reachable (destroy_trx k address)
  started : {k : MvccTrxKit} (address : ℕ) → Reachable k → Reachable (start_trx k address)
  committed :
      {k : MvccTrxKit}
      → Reachable k
      → Reachable record { current_trx_id = k.current_trx_id + 1; trxes = k.trxes }

AllUpTo-Reachable : (k : MvccTrxKit) → Reachable k → AllUpTo k.current_trx_id k.trxes
unfolding create_trx create_recovering destroy_trx start_trx
AllUpTo-Reachable k at_start = tt
AllUpTo-Reachable k (created {k = k'} address r) =
    AllUpTo-append k'.current_trx_id k'.trxes record { address = address; trx_id = negsuc 0 }
      (AllUpTo-Reachable k' r) refl
AllUpTo-Reachable k (recovered {k = k'} address trx_id r) =
    let h = AllUpTo-Reachable k' r in
    elim (Bool-cases (ltb k'.current_trx_id trx_id)) [
      | inl e ↦ rw e (
          AllUpTo-append trx_id k'.trxes record { address = address; trx_id = pos trx_id }
            (AllUpTo-more k'.current_trx_id trx_id k'.trxes (ground arith) h) (ground arith))
      | inr e ↦ rw e (
          AllUpTo-append k'.current_trx_id k'.trxes
            record { address = address; trx_id = pos trx_id } h (ground arith))
    ]
AllUpTo-Reachable k (destroyed {k = k'} address r) =
    AllUpTo-erase_trx k'.current_trx_id address k'.trxes (AllUpTo-Reachable k' r)
AllUpTo-Reachable k (started {k = k'} address r) =
    AllUpTo-set_trx_id (k'.current_trx_id + 1) address (pos (k'.current_trx_id + 1)) k'.trxes
      (ground arith)
      (AllUpTo-more k'.current_trx_id (k'.current_trx_id + 1) k'.trxes (omega arith)
        (AllUpTo-Reachable k' r))
AllUpTo-Reachable k (committed {k = k'} r) =
    AllUpTo-more k'.current_trx_id (k'.current_trx_id + 1) k'.trxes (omega arith)
      (AllUpTo-Reachable k' r)

-- However transactions are created, recovered from the log, started, committed and destroyed: no
-- transaction of the kit has a number that the counter is still to give out.
pub find_trx-fresh :
    (k : MvccTrxKit) (n : ℕ) → Reachable k → k.current_trx_id < n → find_trx k (pos n) ≡ none
unfolding find_trx
find_trx-fresh k n r h = find_in-above k.current_trx_id n k.trxes (AllUpTo-Reachable k r) h

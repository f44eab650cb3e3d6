-- ===== src/RingBuffer/Read.antt =====
-- `read`: which bytes it hands out and what it leaves.
use miniob_basic.Base.{
  ℕ, zero, suc, ◌+◌, ◌-◌, ◌≤◌, ◌<◌, ◌≡◌, refl, sym, ap, subst, ◌∙◌, some, List, [], ◌++◌, arith,
  ltb, if◌then◌else◌, append_assoc, append-nil, min, dec_lt, lt→ltb, le→not_ltb, ==_ne,
}
use miniob_basic.Memory.{slice}
use miniob_basic.Base.Int.{pos}
use miniob_basic.Rc.{Rc, success}
use miniob_basic.RingBuffer.{
  RingBuffer, capacity, read_pos, next_block, forward, read_round, read_from, read,
}
use miniob_basic.RingBuffer.Valid.{IsValid, read_pos_lem}
use miniob_basic.RingBuffer.Take.{IsTaken, IsTaken-none, IsTaken-twice, take_block-IsTaken}

-- The length of the next block of a buffer that is not empty.
block_size : RingBuffer → ℕ
block_size r =
    if ltb (read_pos r) r.write_pos then r.write_pos - read_pos r else capacity r - read_pos r

block_size_lem :
    (r : RingBuffer)
    → IsValid r
    → 0 < r.data_size
    → (0 < block_size r)
      × (min r.data_size (block_size r) ≡ block_size r)
      × (read_pos r + block_size r ≤ capacity r)
unfolding block_size
block_size_lem r v h = ground (arith, read_pos_lem r v)

-- A round takes the smaller of what is wanted and the next block, and never fails.
read_round_lem :
    (r : RingBuffer) (want : ℕ)
    → IsValid r
    → 0 < r.data_size
    → 0 < want
    → read_round r want ≡ (
      success,
      slice (min want (block_size r)) r.buffer (read_pos r),
      min want (block_size r),
      record r { data_size = r.data_size - min want (block_size r) },
    )
unfolding read_round next_block forward block_size
read_round_lem r want v h c =
    rw
      (
        ==_ne r.data_size 0 (λ e. omega arith),
        ==_ne (min want (block_size r)) 0 (λ e. omega (arith, e, block_size_lem r v h)),
        le→not_ltb (min want (block_size r)) r.data_size (omega (arith, block_size_lem r v h)),
      )
      refl

-- The buffer behind a call that handed out `n` bytes behind `out`, its result being `answer`.
abbrev Handed : RingBuffer → ℕ → List ℕ → Rc × List ℕ × RingBuffer → Type 0
Handed r n out answer =
    (block : List ℕ) × (r' : RingBuffer) × (answer ≡ (success, out ++ block, r'))
    × IsTaken r n block r'

Handed-none :
    (r : RingBuffer) (n : ℕ) (out : List ℕ) → IsValid r → n ≡ 0 → Handed r n out (success, out, r)
Handed-none r n out v e =
    subst (λ i. Handed r i out (success, out, r)) (sym e)
      ([], r, ap (λ o. (success, o, r)) (sym (append-nil out)), IsTaken-none r v)

Handed-more :
    (r r' : RingBuffer) (n m k : ℕ) (out block : List ℕ) (answer : Rc × List ℕ × RingBuffer)
    → IsTaken r n block r'
    → Handed r' m (out ++ block) answer
    → n + m ≡ k
    → Handed r k out answer
Handed-more r r' n m k out block answer a (block', r'', e, b) q =
    subst (λ i. Handed r i out answer) q
      (
        block ++ block',
        r'',
        e ∙ ap (λ o. (success, o, r'')) (append_assoc out block block'),
        IsTaken-twice r r' r'' n m block block' a b,
      )

read_from_lem :
    (fuel : ℕ) (r : RingBuffer) (want : ℕ) (out : List ℕ)
    → IsValid r
    → want ≤ fuel
    → Handed r (min want r.data_size) out (read_from fuel r want out)
unfolding read_from
read_from_lem zero r want out v h = Handed-none r (min want r.data_size) out v (omega arith)
read_from_lem (suc fuel) r want out v h = elim (dec_lt 0 want) [
  | no c ↦
      rw (le→not_ltb want 0 (omega arith))
        (Handed-none r (min want r.data_size) out v (omega arith))
  | yes c ↦ elim (dec_lt 0 r.data_size) [
    | no d ↦
        rw (lt→ltb 0 want c, le→not_ltb r.data_size 0 (omega arith))
          (Handed-none r (min want r.data_size) out v (omega arith))
    | yes d ↦
        let n = min want (block_size r) in
        let block = slice n r.buffer (read_pos r) in
        let r' = record r { data_size = r.data_size - n } in
        let room = block_size_lem r v d in
        let a : IsTaken r n block r' =
          take_block-IsTaken r v n (omega (arith, room)) (omega (arith, room)) in
        rw (lt→ltb 0 want c, lt→ltb 0 r.data_size d, read_round_lem r want v d c)
          (Handed-more r r' n (min (want - n) r'.data_size) (min want r.data_size) out block
            (read_from fuel r' (want - n) (out ++ block)) a
            (read_from_lem fuel r' (want - n) (out ++ block) a.valid (omega (arith, room)))
            (omega (arith, room, a.size)))
  ]
]

-- On a valid ring buffer, `read` of `n` bytes succeeds and hands out the oldest bytes, in order,
-- as many as the smaller of `n` and the size; the buffer stays valid, keeps its capacity and holds
-- the bytes behind them.
pub read-IsTaken :
    (r : RingBuffer) (n : ℕ)
    → IsValid r
    → (out : List ℕ) × (r' : RingBuffer) × (read r (pos n) ≡ (success, some out, r'))
      × IsTaken r (min n r.data_size) out r'
unfolding read
read-IsTaken r n v =
    let (out, r', e, a) = read_from_lem (n + 1) r n [] v (omega arith) in
    (out, r', ap (λ answer. (answer.0, some (answer.1), answer.2)) e, a)

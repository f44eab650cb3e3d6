-- ===== src/RingBuffer/Write.antt =====
-- `write`: how many bytes it takes and where they stand among the data.
use miniob_basic.Base.{
  ℕ, zero, suc, ◌+◌, ◌-◌, ◌≤◌, ◌<◌, ◌≡◌, sym, ap, subst, ◌∙◌, some, List, arith, drop, min, dec_lt,
  lt→ltb, le→not_ltb, ==_ne,
}
use miniob_basic.Base.Int.{pos}
use miniob_basic.Rc.{success}
use miniob_basic.RingBuffer.{RingBuffer, capacity, remain, write_room, put_block, write_from, write}
use miniob_basic.RingBuffer.Valid.{IsValid, read_pos_lem}
use miniob_basic.RingBuffer.Append.{
  IsAppended, put_block-IsAppended, IsAppended-twice, IsAppended-none,
}

-- While there is room a round can copy a byte, and never more than fits.
write_room_lem :
    (r : RingBuffer)
    → IsValid r
    → 0 < remain r
    → (0 < write_room r)
      × (r.data_size + write_room r ≤ capacity r)
      × (r.write_pos + write_room r ≤ capacity r)
unfolding write_room
write_room_lem r v h = ground (arith, read_pos_lem r v)

-- The buffer behind a call that took `n` bytes of `source`, the answer being `out`.
abbrev Took : RingBuffer → List ℕ → ℕ → ℕ → ℕ × RingBuffer → Type 0
Took r source done n out =
    (r' : RingBuffer) × (out ≡ (done + n, r')) × IsAppended r (drop done source) n r'

Took-none :
    (r : RingBuffer) (source : List ℕ) (done n : ℕ)
    → IsValid r
    → n ≡ 0
    → Took r source done n (done, r)
Took-none r source done n v e =
    subst (λ i. Took r source done i (done, r)) (sym e)
      (r, ap (λ i. (i, r)) (omega arith), IsAppended-none r (drop done source) v)

Took-more :
    (r r' : RingBuffer) (source : List ℕ) (done n m k : ℕ) (out : ℕ × RingBuffer)
    → IsAppended r (drop done source) n r'
    → Took r' source (done + n) m out
    → n + m ≡ k
    → Took r source done k out
Took-more r r' source done n m k out a (r'', e, b) q =
    subst (λ i. Took r source done i out) q
      (r'', e ∙ ap (λ i. (i, r'')) (omega arith), IsAppended-twice r r' r'' source done n m a b)

write_from_lem :
    (fuel : ℕ) (r : RingBuffer) (source : List ℕ) (size done : ℕ)
    → IsValid r
    → size - done ≤ fuel
    → Took r source done (min (size - done) (remain r)) (write_from fuel r source size done)
unfolding write_from
write_from_lem zero r source size done v h =
    Took-none r source done (min (size - done) (remain r)) v (omega arith)
write_from_lem (suc fuel) r source size done v h = elim (dec_lt done size) [
  | no c ↦
      rw (le→not_ltb size done (omega arith))
        (Took-none r source done (min (size - done) (remain r)) v (omega arith))
  | yes c ↦ elim (dec_lt 0 (remain r)) [
    | no d ↦
        rw (lt→ltb done size c, le→not_ltb (remain r) 0 (omega arith))
          (Took-none r source done (min (size - done) (remain r)) v (omega arith))
    | yes d ↦
        let copy_size = min (size - done) (write_room r) in
        let room = write_room_lem r v d in
        let r' = put_block r (drop done source) copy_size in
        let a : IsAppended r (drop done source) copy_size r' =
          put_block-IsAppended r v (drop done source) copy_size (omega (arith, room))
            (omega (arith, room)) in
        rw
          (
            lt→ltb done size c,
            lt→ltb 0 (remain r) d,
            ==_ne copy_size 0 (λ z. omega (arith, room, z)),
          )
          (Took-more r r' source done copy_size (min (size - (done + copy_size)) (remain r'))
            (min (size - done) (remain r)) (write_from fuel r' source size (done + copy_size)) a
            (write_from_lem fuel r' source size (done + copy_size) a.valid (omega (arith, room)))
            (omega (arith, room, a.same_capacity)))
  ]
]

-- On a valid ring buffer, `write` of `n` bytes succeeds and answers with the smaller of `n` and the
-- free space; the buffer stays valid, keeps its capacity and the bytes that it held, and holds that
-- many of the first bytes of the source behind them, in order.
pub write-IsAppended :
    (r : RingBuffer) (source : List ℕ) (n : ℕ)
    → IsValid r
    → (r' : RingBuffer) × (write r source (pos n) ≡ (success, some (min n (remain r)), r'))
      × IsAppended r source (min n (remain r)) r'
unfolding write
write-IsAppended r source zero v = (
  r,
  ap (λ i. (success, some i, r)) (omega arith),
  subst (λ i. IsAppended r source i r) (omega arith) (IsAppended-none r source v),
)
write-IsAppended r source (suc n) v =
    let (r', e, a) = write_from_lem (suc n) r source (suc n) 0 v (omega arith) in
    let q : min (suc n - 0) (remain r) ≡ min (suc n) (remain r) = omega arith in
    let q' : 0 + min (suc n - 0) (remain r) ≡ min (suc n) (remain r) = omega arith in
    (
      r',
      ap (λ out. (success, some (out.0), out.1)) (e ∙ ap (λ i. (i, r')) q'),
      subst (λ i. IsAppended r source i r') q a,
    )

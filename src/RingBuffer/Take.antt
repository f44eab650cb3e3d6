-- ===== src/RingBuffer/Take.antt =====
-- Bytes taken from the front of a ring buffer, as one block and as several.
use miniob_basic.Base.{
  ℕ, ◌+◌, ◌-◌, ◌%◌, ◌≤◌, ◌<◌, ◌≡◌, refl, sym, ap, ◌∙◌, List, [], ◌++◌, arith, length, get_or,
  length-append, get_or-append, dec_lt, lt→ltb, le→not_ltb,
}
use native.Mathlib.Nat.{mod-eq_of_lt}
use miniob_basic.Memory.{slice, length-slice, get_or-slice}
use miniob_basic.RingBuffer.{RingBuffer, capacity, read_pos}
use miniob_basic.RingBuffer.Valid.{IsValid, byte_at, wrap, read_pos_lem}

-- `out` holds the first `n` bytes of `r`, and `r'` the bytes behind them.
pub record IsTaken (r : RingBuffer) (n : ℕ) (out : List ℕ) (r' : RingBuffer) : Type 0 where
  pub valid : IsValid r'
  pub same_capacity : capacity r' ≡ capacity r
  pub size : r'.data_size + n ≡ r.data_size
  pub kept : (k : ℕ) → k < r'.data_size → byte_at r' k ≡ byte_at r (n + k)
  pub out_length : length out ≡ n
  pub taken : (k : ℕ) → k < n → get_or out k 0 ≡ byte_at r k

pub IsTaken-none : (r : RingBuffer) → IsValid r → IsTaken r 0 [] r
IsTaken-none r v = record {
  valid = v;
  same_capacity = refl;
  size = omega arith;
  kept = λ k h. ap (byte_at r) (omega arith);
  out_length = refl;
  taken = λ k h. absurd (omega arith);
}

-- Taking in two parts.
pub IsTaken-twice :
    (r r' r'' : RingBuffer) (n m : ℕ) (out out' : List ℕ)
    → IsTaken r n out r'
    → IsTaken r' m out' r''
    → IsTaken r (n + m) (out ++ out') r''
IsTaken-twice r r' r'' n m out out' a b = record {
  valid = b.valid;
  same_capacity = b.same_capacity ∙ a.same_capacity;
  size = omega (arith, a.size, b.size);
  kept = λ k h. b.kept k h ∙ a.kept (m + k) (omega (arith, b.size)) ∙ ap (byte_at r) (omega arith);
  out_length = omega (arith, length-append out out', a.out_length, b.out_length);
  taken = λ k h.
      get_or-append out out' k 0
      ∙ rw a.out_length (elim (dec_lt k n) [
        | yes c ↦ rw (lt→ltb k n c) (a.taken k c)
        | no c ↦ rw (le→not_ltb n k (omega arith)) (
            b.taken (k - n) (omega arith)
            ∙ a.kept (k - n) (omega (arith, b.size))
            ∙ ap (byte_at r) (omega arith))
      ]);
}

module _ (r : RingBuffer) (v : IsValid r) (n : ℕ) (in_data : n ≤ r.data_size)
    (in_row : read_pos r + n ≤ capacity r) where
  abbrev r' : RingBuffer
  r' = record r { data_size = r.data_size - n }

  valid' : IsValid r'
  valid' = record { write_in = v.write_in; size_in = omega (arith, v.size_in) }

  place' :
      (k : ℕ)
      → k < r'.data_size
      → (read_pos r' + k) % capacity r ≡ (read_pos r + (n + k)) % capacity r
  place' k h = ground (
    arith,
    read_pos_lem r v,
    read_pos_lem r' valid',
    wrap (read_pos r' + k) (capacity r) (omega (arith, read_pos_lem r' valid')),
    wrap (read_pos r + (n + k)) (capacity r) (omega (arith, read_pos_lem r v)),
  )

  pub take_block-IsTaken : IsTaken r n (slice n r.buffer (read_pos r)) r'
  take_block-IsTaken = record {
    valid = valid';
    same_capacity = refl;
    size = omega arith;
    kept = λ k h. ap (λ i. get_or r.buffer i 0) (place' k h);
    out_length = length-slice n r.buffer (read_pos r);
    taken = λ k h.
        get_or-slice n r.buffer (read_pos r) k h
        ∙ ap (λ i. get_or r.buffer i 0) (sym (mod-eq_of_lt (omega arith)));
  }

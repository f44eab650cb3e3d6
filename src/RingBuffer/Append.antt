-- ===== src/RingBuffer/Append.antt =====
-- Bytes put behind the data of a ring buffer, as one block and as several.
use miniob_basic.Base.{
  ℕ, ◌+◌, ◌-◌, ◌%◌, ◌≤◌, ◌<◌, ◌≡◌, refl, sym, ap, ap₂, ◌∙◌, ◌⊎◌, List, arith, get_or, drop,
  get_or-drop, dec_lt,
}
use native.Mathlib.Nat.{mod-lt}
use miniob_basic.Memory.{memcpy, length-memcpy, get_or-memcpy, get_or-memcpy_in}
use miniob_basic.RingBuffer.{RingBuffer, capacity, read_pos, put_block}
use miniob_basic.RingBuffer.Valid.{IsValid, byte_at, wrap, read_pos_lem}

-- The buffer `r'` holds the data of `r` and `n` bytes of `source` behind it.
pub record IsAppended (r : RingBuffer) (source : List ℕ) (n : ℕ) (r' : RingBuffer) : Type 0 where
  pub valid : IsValid r'
  pub same_capacity : capacity r' ≡ capacity r
  pub size : r'.data_size ≡ r.data_size + n
  pub kept : (k : ℕ) → k < r.data_size → byte_at r' k ≡ byte_at r k
  pub added : (k : ℕ) → k < n → byte_at r' (r.data_size + k) ≡ get_or source k 0

module _ (r : RingBuffer) (v : IsValid r) (source : List ℕ) (n : ℕ)
    (fits : r.data_size + n ≤ capacity r) (in_row : r.write_pos + n ≤ capacity r) where
  abbrev r' : RingBuffer
  r' = put_block r source n

  cap' : capacity r' ≡ capacity r
  cap' = length-memcpy n r.buffer r.write_pos source

  valid' : IsValid r'
  valid' = record {
    write_in =
        omega (arith, cap', v.write_in, mod-lt (r.write_pos + n) {m = capacity r} (omega arith));
    size_in = omega (arith, cap');
  }

  read_pos' : read_pos r' ≡ read_pos r
  read_pos' = ground (
    arith,
    cap',
    wrap (r.write_pos + n) (capacity r) (omega arith),
    read_pos_lem r v,
    read_pos_lem r' valid',
  )

  byte' :
      (k : ℕ)
      → byte_at r' k
        ≡ get_or (memcpy n r.buffer r.write_pos source) ((read_pos r + k) % capacity r) 0
  byte' k =
      ap₂ (λ p c. get_or (memcpy n r.buffer r.write_pos source) ((p + k) % c) 0) read_pos' cap'

  outside :
      (k : ℕ)
      → k < r.data_size
      → ((read_pos r + k) % capacity r < r.write_pos)
        ⊎ (r.write_pos + n ≤ (read_pos r + k) % capacity r)
  outside k h = ground (arith, read_pos_lem r v, wrap (read_pos r + k) (capacity r) (omega arith))

  behind : (k : ℕ) → k < n → (read_pos r + (r.data_size + k)) % capacity r ≡ r.write_pos + k
  behind k h = ground (
    arith,
    read_pos_lem r v,
    wrap (read_pos r + (r.data_size + k)) (capacity r) (omega (arith, read_pos_lem r v)),
  )

  pub put_block-IsAppended : IsAppended r source n r'
  put_block-IsAppended = record {
    valid = valid';
    same_capacity = cap';
    size = refl;
    kept = λ k h.
        byte' k
        ∙ ground (
          arith,
          outside k h,
          get_or-memcpy n r.buffer r.write_pos source ((read_pos r + k) % capacity r) in_row,
        );
    added = λ k h.
        byte' (r.data_size + k)
        ∙ ap (λ i. get_or (memcpy n r.buffer r.write_pos source) i 0) (behind k h)
        ∙ get_or-memcpy_in n r.buffer r.write_pos source k in_row h;
  }

-- Appending in two parts.
pub IsAppended-twice :
    (r r' r'' : RingBuffer) (source : List ℕ) (done n m : ℕ)
    → IsAppended r (drop done source) n r'
    → IsAppended r' (drop (done + n) source) m r''
    → IsAppended r (drop done source) (n + m) r''
IsAppended-twice r r' r'' source done n m a b = record {
  valid = b.valid;
  same_capacity = b.same_capacity ∙ a.same_capacity;
  size = omega (arith, a.size, b.size);
  kept = λ k h. b.kept k (omega (arith, a.size)) ∙ a.kept k h;
  added = λ k h. elim (dec_lt k n) [
    | yes c ↦ b.kept (r.data_size + k) (omega (arith, a.size)) ∙ a.added k c
    | no c ↦
        let e : r'.data_size + (k - n) ≡ r.data_size + k = omega (arith, a.size) in
        let f : done + n + (k - n) ≡ done + k = omega arith in
        ap (byte_at r'') (sym e)
        ∙ b.added (k - n) (omega arith)
        ∙ get_or-drop (done + n) source (k - n) 0
        ∙ ap (λ i. get_or source i 0) f
        ∙ sym (get_or-drop done source k 0)
  ];
}

pub IsAppended-none : (r : RingBuffer) (source : List ℕ) → IsValid r → IsAppended r source 0 r
IsAppended-none r source v = record {
  valid = v;
  same_capacity = refl;
  size = omega arith;
  kept = λ k h. refl;
  added = λ k h. absurd (omega arith);
}

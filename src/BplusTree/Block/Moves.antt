-- ===== src/BplusTree/Block/Moves.antt =====
-- Items that go from a node to its neighbour: together the two have the items that they had, in order.
use miniob_basic.Base.{
  suc, ◌+◌, ◌-◌, ◌/◌, ◌<◌, ◌≡◌, refl, sym, ap, ap₂, ◌∙◌, some, [], ◌∷◌, ◌++◌, ==_ne, arith,
  append_assoc,
}
use miniob_basic.BplusTree.Array.{memcpy, slice, slice-append, slice-same, memcpy_in}
use miniob_basic.BplusTree.Block.{
  Block, append, preappend, copy_from, move_half_to, move_first_to_end, move_last_to_front, move_to,
}
use miniob_basic.BplusTree.Block.Laws.{items, items-append, items-preappend, items-copy_from}

module _ {ℓ} {A : Type ℓ} where
  -- The items of a split node are those of its halves.
  pub items-move_half_to :
      (b other : Block A)
      → other.size ≡ 0
      → (items (move_half_to b other).0 ++ items (move_half_to b other).1 ≡ items b)
        × ((move_half_to b other).0.size ≡ b.size / 2)
        × ((move_half_to b other).1.size ≡ b.size - b.size / 2)
  unfolding move_half_to copy_from
  items-move_half_to b other e =
      let half = b.size / 2 in
      let rest = b.size - half in
      let h : items other ≡ [] = ap (slice other.array 0) e in
      let left : b.size - rest ≡ half = omega arith in
      (
        ap₂ ◌++◌ (ap (slice b.array 0) left)
              (items-copy_from other b half rest ∙ ap (λ xs. xs ++ slice b.array half rest) h)
            ∙ ap (λ r. slice b.array 0 half ++ slice b.array r rest) (omega arith)
            ∙ sym (slice-append b.array 0 half rest)
            ∙ ap (slice b.array 0) (omega arith),
        left,
        omega (arith, e),
      )

  -- What a node that gives an item, and its neighbour, have together.
  pub move_first_to_end_lem :
      (b other : Block A)
      → 0 < b.size
      → (b' : Block A) × (other' : Block A) × (move_first_to_end b other ≡ some (b', other'))
        × (items other' ++ items b' ≡ items other ++ items b)
        × (b'.size + 1 ≡ b.size)
        × (other'.size ≡ other.size + 1)
  unfolding move_first_to_end append
  move_first_to_end_lem b other h =
      let rest = memcpy b.array 0 b.array 1 (b.size - 1) in
      let e : b.size ≡ suc (b.size - 1) = omega arith in
      (
        record { size = b.size - 1; array = rest },
        append other (b.array 0),
        rw (==_ne b.size 0 (omega arith), move_first_to_end) refl,
        ap₂ ◌++◌ (items-append other (b.array 0)) (
              slice-same rest b.array 0 1 (b.size - 1)
                (λ i g. memcpy_in b.array 0 b.array 1 (b.size - 1) i g))
            ∙ append_assoc (items other) (b.array 0 ∷ []) (slice b.array 1 (b.size - 1))
            ∙ ap (λ n. items other ++ slice b.array 0 n) (sym e),
        omega arith,
        refl,
      )

  pub move_last_to_front_lem :
      (b other : Block A)
      → 0 < b.size
      → (b' : Block A) × (other' : Block A) × (move_last_to_front b other ≡ some (b', other'))
        × (items b' ++ items other' ≡ items b ++ items other)
        × (b'.size + 1 ≡ b.size)
        × (other'.size ≡ other.size + 1)
  unfolding move_last_to_front preappend
  move_last_to_front_lem b other h =
      let last = b.array (b.size - 1) in
      let e : b.size ≡ (b.size - 1) + 1 = omega arith in
      (
        record b { size = b.size - 1 },
        preappend other last,
        rw (==_ne b.size 0 (omega arith), move_last_to_front) refl,
        ap (λ xs. slice b.array 0 (b.size - 1) ++ xs) (items-preappend other last)
            ∙ sym (append_assoc (slice b.array 0 (b.size - 1)) (last ∷ []) (items other))
            ∙ ap (λ xs. xs ++ items other)
                (ap (λ r. slice b.array 0 (b.size - 1) ++ (b.array r ∷ [])) (omega arith)
                  ∙ sym (slice-append b.array 0 (b.size - 1) 1)
                  ∙ ap (slice b.array 0) (sym e)),
        omega arith,
        refl,
      )

  pub items-move_to :
      (b other : Block A)
      → (items (move_to b other).1 ≡ items other ++ items b) × (items (move_to b other).0 ≡ [])
  unfolding move_to
  items-move_to b other =
      let z : b.size - b.size ≡ 0 = omega arith in
      (items-copy_from other b 0 b.size, ap (slice b.array 0) z)

-- ===== src/BplusTree/Scanner/Step.antt =====
-- One step of a scanner: in a leaf, or on to the next one.
use miniob_basic.Base.{
  ℕ, suc, ◌≤◌, ◌<◌, ◌≡◌, refl, ap, ◌∙◌, Bool, true, false, Option, some, none, List, [], ◌∷◌, ltb,
  lt→ltb, le→not_ltb,
}
use miniob_basic.Base.Int.{ℤ}
use miniob_basic.Rc.{Rc, Run, success, record_eof}
use miniob_basic.LowerBound.{sign}
use miniob_basic.BplusTree.Block.{Block, item_at}
use miniob_basic.BplusTree.Node.{leaf, LeafIndexNode}
use miniob_basic.BplusTree.Tree.{
  Handler, BplusTree, ok, ◌>>=◌, >>=-of_ok, read_leaf, read_leaf-of_leaf,
}
use miniob_basic.BplusTree.Tree.Insert.{key_at, asserted}
use miniob_basic.BplusTree.Scanner.{
  BplusTreeScanner, is_above, is_past, touch_end, emit, next_leaf, next_in_leaf, next_from,
}

-- The records up to the first key that is above the right end of the range.
abbrev pub until_step {ℓ} : {R : Type ℓ} → Bool → R → List R → List R
until_step true r rest = []
until_step false r rest = r ∷ rest

abbrev pub is_behind {ℓ} : {K : Type ℓ} → (K → K → ℤ) → Option K → K → Bool
is_behind cmp none key = false
is_behind cmp (some right) key = is_above (sign (cmp key right))

abbrev pub until_right {ℓ κ} :
    {K : Type ℓ} {R : Type κ} → (K → K → ℤ) → Option K → List (K × R) → List R
until_right cmp right [] = []
until_right cmp right (x ∷ xs) = until_step (is_behind cmp right x.0) x.1 (until_right cmp right xs)

module _ {ℓ κ μ} {K : Type ℓ} {R : Type κ} {P : Type μ} (h : Handler K R P)
    (try_slatch : ℕ → Bool) where
  pub item_at-lt : (b : Block (K × R)) (i : ℕ) → i < b.size → item_at b i ≡ some (b.array i)
  unfolding item_at
  item_at-lt b i l = rw (lt→ltb i b.size l, item_at) refl

  is_past-some :
      (right : Option K) (k : K)
      → is_past h right (some k) ≡ some (is_behind h.key_comparator right k)
  is_past-some none k = refl
  is_past-some (some right) k = refl

  touch_end-lt :
      (s : BplusTreeScanner K) (n : LeafIndexNode K R)
      → s.iter_index < n.block.size
      → touch_end h s n
        ≡ some (is_behind h.key_comparator s.right_key (n.block.array s.iter_index).0)
  unfolding key_at
  touch_end-lt s n l =
      ap (is_past h s.right_key) (rw (item_at-lt n.block s.iter_index l, key_at) refl)
      ∙ is_past-some s.right_key ((n.block.array s.iter_index).0)

  pub next_from-leaf :
      (fuel : ℕ) (s : BplusTreeScanner K) (page index : ℕ) (t : BplusTree K R P)
      (n : LeafIndexNode K R) (inside : Bool)
      → t.nodes page ≡ leaf n
      → ltb index n.block.size ≡ inside
      → next_from h (suc fuel) try_slatch s page index t
        ≡ next_in_leaf h try_slatch
            (λ p. next_from h fuel try_slatch s p 0)
            (record s { current = some page; iter_index = index })
            n
            inside
            t
  unfolding next_from
  next_from-leaf fuel s page index t n inside at l =
      let here = record s { current = some page; iter_index = index } in
      let next = λ (p : ℕ). next_from h fuel try_slatch s p 0 in
      >>=-of_ok (read_leaf page)
        (λ (node : LeafIndexNode K R).
          next_in_leaf h try_slatch next here node (ltb index node.block.size))
        t n t (read_leaf-of_leaf page t n at)
      ∙ ap (λ b. next_in_leaf h try_slatch next here n b t) l

  -- What a call gives at an item of a leaf.
  abbrev pub emitted_at :
      BplusTreeScanner K → ℕ → ℕ → LeafIndexNode K R → Bool → Rc × Option R × BplusTreeScanner K
  emitted_at s page index n true =
      (record_eof, none, record s { current = some page; iter_index = index })
  emitted_at s page index n false =
      (success, some (n.block.array index).1, record s { current = some page; iter_index = index })

  emit_lem :
      (s : BplusTreeScanner K) (page index : ℕ) (t : BplusTree K R P) (n : LeafIndexNode K R)
      (flag : Bool)
      → index < n.block.size
      → emit h (record s { current = some page; iter_index = index }) n flag t
        ≡ some (ok (emitted_at s page index n flag), t)
  emit_lem s page index t n true l = refl
  emit_lem s page index t n false l =
      ap
        (λ (m : Run (K × R)).
          (asserted (elim m [ none ↦ none | some item ↦ some item.1 ]) >>= λ (rid : R).
          λ (u : BplusTree K R P).
            some
              (ok ((success, some rid, record s { current = some page; iter_index = index })), u))
            t)
        (item_at-lt n.block index l)

  pub next_from-within :
      (fuel : ℕ) (s : BplusTreeScanner K) (page index : ℕ) (t : BplusTree K R P)
      (n : LeafIndexNode K R) (flag : Bool)
      → t.nodes page ≡ leaf n
      → index < n.block.size
      → is_behind h.key_comparator s.right_key (n.block.array index).0 ≡ flag
      → next_from h (suc fuel) try_slatch s page index t
        ≡ some (ok (emitted_at s page index n flag), t)
  next_from-within fuel s page index t n flag at l e =
      let here = record s { current = some page; iter_index = index } in
      next_from-leaf fuel s page index t n true at (lt→ltb index n.block.size l)
      ∙ >>=-of_ok (asserted (touch_end h here n)) (λ (b : Bool). emit h here n b) t flag t
          (rw (touch_end-lt here n l ∙ ap some e, asserted) refl)
      ∙ emit_lem s page index t n flag l

  -- Behind the last item of the last leaf.
  pub next_from-last :
      (fuel : ℕ) (s : BplusTreeScanner K) (page index : ℕ) (t : BplusTree K R P)
      (n : LeafIndexNode K R)
      → t.nodes page ≡ leaf n
      → n.block.size ≤ index
      → n.next_brother ≡ none
      → next_from h (suc fuel) try_slatch s page index t
        ≡ some (ok (record_eof, none, record s { current = some page; iter_index = index }), t)
  next_from-last fuel s page index t n at l e =
      let here = record s { current = some page; iter_index = index } in
      next_from-leaf fuel s page index t n false at (le→not_ltb n.block.size index l)
      ∙ ap (λ b. next_leaf h try_slatch (λ p. next_from h fuel try_slatch s p 0) here b t) e

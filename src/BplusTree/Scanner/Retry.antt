-- ===== src/BplusTree/Scanner/Retry.antt =====
-- A call of `next_entry` that is repeated when the next page could not be latched at once.
use miniob_basic.Base.{
  ℕ, suc, ◌+◌, ◌≤◌, ◌≡◌, refl, ap, ap₂, ◌∙◌, Bool, true, false, some, none, arith, le→not_ltb,
}
use miniob_basic.Rc.{record_eof, locked_need_wait}
use miniob_basic.BplusTree.Node.{leaf, LeafIndexNode}
use miniob_basic.BplusTree.Tree.{Handler, BplusTree, ok}
use miniob_basic.BplusTree.Subtree.Find.{IsAnswering}
use miniob_basic.BplusTree.Scanner.{BplusTreeScanner, next_leaf, entry_from, next_from, next_entry}
use miniob_basic.BplusTree.Scanner.Step.{next_from-leaf}

module _ {ℓ κ μ} {K : Type ℓ} {R : Type κ} {P : Type μ} (h : Handler K R P)
    (answering : IsAnswering h.disk_buffer_pool) where
  -- A call at the last item of a leaf that cannot latch the next page at once answers
  -- `LOCKED_NEED_WAIT`. When it is called again, and can, it answers `RECORD_EOF`, if that page is the
  -- last and has at most one item more than the leaf before: none of its items is given.
  pub next_entry-skips :
      (fuel : ℕ) (try_slatch again : ℕ → Bool) (s : BplusTreeScanner K) (t : BplusTree K R P)
      (page q : ℕ) (n m : LeafIndexNode K R)
      → s.current ≡ some page
      → s.first_emitted ≡ true
      → t.nodes page ≡ leaf n
      → s.iter_index + 1 ≡ n.block.size
      → n.next_brother ≡ some q
      → t.nodes q ≡ leaf m
      → m.next_brother ≡ none
      → m.block.size ≤ n.block.size + 1
      → try_slatch q ≡ false
      → (s' : BplusTreeScanner K) × (s'' : BplusTreeScanner K) × (p : P) × (next_entry h
            (suc fuel)
            try_slatch
            s
            t
          ≡ some (ok (locked_need_wait, none, s'), record t { pages = p }))
        × (next_entry h (suc fuel) again s' (record t { pages = p })
            ≡ some (ok (record_eof, none, s''), record t { pages = p }))
  unfolding next_entry
  next_entry-skips fuel try_slatch again s t page q n m c f at i e at_q last size busy =
      let index = s.iter_index + 1 in
      let here = record s { current = some page; iter_index = index } in
      let s' = record here { current = some q } in
      let t' = record t { pages = (h.disk_buffer_pool.get_page t.pages q).1 } in
      let next = λ (x : ℕ). next_from h fuel try_slatch s x 0 in
      (
        s',
        record s' { iter_index = index + 1 },
        (h.disk_buffer_pool.get_page t.pages q).1,
        ap₂ (λ x b. entry_from h (suc fuel) try_slatch s x b t) c f
            ∙ next_from-leaf h try_slatch fuel s page index t n false at
                (le→not_ltb n.block.size index (omega arith))
            ∙ ap (λ x. next_leaf h try_slatch next here x t) e
            ∙ rw (answering t.pages q, busy) refl,
        ap (λ b. entry_from h (suc fuel) again s' (some q) b t') f
            ∙ next_from-leaf h again fuel s' q (index + 1) t' m false at_q
                (le→not_ltb m.block.size (index + 1) (omega arith))
            ∙ ap
                (λ x.
                  next_leaf h again (λ (y : ℕ). next_from h fuel again s' y 0)
                    (record s' { iter_index = index + 1 }) x t')
                last,
      )

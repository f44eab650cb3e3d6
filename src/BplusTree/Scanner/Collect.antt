-- ===== src/BplusTree/Scanner/Collect.antt =====
-- The entries that a scanner gives, from where it stands to the end of its range.
use miniob_basic.Base.{
  ℕ, zero, suc, ◌+◌, ◌-◌, ◌<◌, ◌≡◌, refl, sym, ap, ap₂, ◌∙◌, Bool, true, false, Option, some, none,
  List, [], ◌∷◌, ◌++◌, arith, inl, inr, length,
}
use miniob_basic.Rc.{Rc, Run, success, record_eof}
use miniob_basic.BplusTree.Array.{slice}
use miniob_basic.BplusTree.Node.{leaf, LeafIndexNode, IndexNode}
use miniob_basic.BplusTree.Tree.{
  Handler, BplusTree, ok, ◌>>=◌, >>=-of_ok, pure, read_leaf, read_leaf-of_leaf,
}
use miniob_basic.BplusTree.Tree.Insert.{asserted}
use miniob_basic.BplusTree.Subtree.Find.{IsAnswering}
use miniob_basic.BplusTree.Scanner.{
  BplusTreeScanner, entry_from, collected, fetch_item, next_entry, collect,
}
use miniob_basic.BplusTree.Scanner.Step.{is_behind, until_step, until_right, item_at-lt}
use miniob_basic.BplusTree.Scanner.Next.{IsChain, chain_items, IsAt, next_entry-Outcome}

abbrev head_or {ℓ} : {A : Type ℓ} → A → List A → A
head_or d [] = d
head_or d (x ∷ xs) = x

abbrev tail_of {ℓ} : {A : Type ℓ} → List A → List A
tail_of [] = []
tail_of (x ∷ xs) = xs

-- Where a scanner stands before it gives the first entry.
pub record IsStart {ℓ κ} {K : Type ℓ} {R : Type κ} (nodes : ℕ → IndexNode K R) (right : Option K)
    (s : BplusTreeScanner K) (x : K × R) (xs : List (K × R)) : Type (ℓ ⊔ κ) where
  pub page : ℕ
  pub node : LeafIndexNode K R
  pub leaves : List (LeafIndexNode K R)
  pub is_page : s.current ≡ some page
  pub at_page : nodes page ≡ leaf node
  pub in_range : s.iter_index < node.block.size
  pub is_chain : IsChain nodes node.next_brother leaves
  pub is_right : s.right_key ≡ right
  pub not_emitted : s.first_emitted ≡ false
  pub is_rest :
      x ∷ xs
      ≡ slice node.block.array s.iter_index (node.block.size - s.iter_index) ++ chain_items leaves

module _ {ℓ κ μ} {K : Type ℓ} {R : Type κ} {P : Type μ} (h : Handler K R P)
    (answering : IsAnswering h.disk_buffer_pool) (try_slatch : ℕ → Bool)
    (latched : (p : ℕ) → try_slatch p ≡ true) where
  -- Behind an entry that was given.
  collect-IsAt :
      (rounds fuel : ℕ) (s : BplusTreeScanner K) (t : BplusTree K R P) (right : Option K)
      (xs : List (K × R))
      → IsAt t.nodes right s xs
      → length xs < rounds
      → (p : P) × (collect h rounds (suc (suc fuel)) try_slatch s t
          ≡ some (ok (record_eof, until_right h.key_comparator right xs), record t { pages = p }))
  unfolding collect
  collect-IsAt zero fuel s t right xs w l = absurd (omega arith)
  collect-IsAt (suc rounds) fuel s t right xs w l =
      let (s', p, o) = next_entry-Outcome h answering try_slatch latched fuel s t right xs w in
      let step = collected h (collect h rounds (suc (suc fuel)) try_slatch) in
      let t' = record t { pages = p } in
      elim o [
        | inl (e, f) ↦ (
          p,
          >>=-of_ok (next_entry h (suc (suc fuel)) try_slatch s) step t (record_eof, none, s') t' e
              ∙ ap (λ rs. some (ok (record_eof, rs), t')) (sym f),
        )
        | inr (y, ys, e, b, f, w') ↦
            let n = ap length e in
            let (p', ih) = collect-IsAt rounds fuel s' t' right ys w' (omega arith) in
            (
              p',
              >>=-of_ok (next_entry h (suc (suc fuel)) try_slatch s) step t (success, some y.1, s')
                    t' f
                  ∙ >>=-of_ok (collect h rounds (suc (suc fuel)) try_slatch s')
                      (λ (rest : Rc × List R). pure (rest.0, y.1 ∷ rest.1)) t'
                      (record_eof, until_right h.key_comparator right ys) (record t { pages = p' })
                      ih
                  ∙ ap (λ rs. some (ok (record_eof, rs), record t { pages = p' }))
                      (ap (λ g. until_step g y.1 (until_right h.key_comparator right ys)) (sym b)
                        ∙ ap (until_right h.key_comparator right) (sym e)),
            )
      ]

  -- The first call gives the item where the scanner stands.
  next_entry-first :
      (fuel : ℕ) (s : BplusTreeScanner K) (t : BplusTree K R P) (right : Option K) (x : K × R)
      (xs : List (K × R))
      → IsStart t.nodes right s x xs
      → (next_entry h fuel try_slatch s t
          ≡ some (ok (success, some x.1, record s { first_emitted = true }), t))
        × IsAt t.nodes right (record s { first_emitted = true }) xs
  unfolding next_entry
  next_entry-first fuel s t right x xs w =
      let n = w.node in
      let i = s.iter_index in
      let range = w.in_range in
      let size : n.block.size - i ≡ suc (n.block.size - suc i) = omega arith in
      let rest = slice n.block.array (suc i) (n.block.size - suc i) ++ chain_items w.leaves in
      let e : x ∷ xs ≡ n.block.array i ∷ rest =
        w.is_rest ∙ ap (λ m. slice n.block.array i m ++ chain_items w.leaves) size in
      let emitted = record s { first_emitted = true } in
      (
        ap₂ (λ c b. entry_from h fuel try_slatch s c b t) w.is_page w.not_emitted
            ∙ >>=-of_ok (read_leaf w.page)
                (λ (node : LeafIndexNode K R). asserted (fetch_item h s node) >>= λ (rid : R).
                  pure {A = Rc × Option R × BplusTreeScanner K} (success, some rid, emitted))
                t n t (read_leaf-of_leaf w.page t n w.at_page)
            ∙ >>=-of_ok (asserted (fetch_item h s n))
                (λ (rid : R).
                  pure {A = Rc × Option R × BplusTreeScanner K} (success, some rid, emitted))
                t (n.block.array i).1 t
                (ap
                  (λ (m : Run (K × R)).
                    asserted (elim m [ none ↦ none | some item ↦ some item.1 ]) t)
                  (item_at-lt h try_slatch n.block i w.in_range))
            ∙ ap (λ (y : K × R). some (ok ((success, some y.1, emitted)), t))
                (sym (ap (head_or x) e)),
        record {
          page = w.page;
          node = n;
          behind = w.leaves;
          is_page = w.is_page;
          at_page = w.at_page;
          in_range = w.in_range;
          is_chain = w.is_chain;
          is_right = w.is_right;
          emitted = refl;
          is_rest = ap tail_of e;
        },
      )

  -- A scanner that has not given an entry, on an item that is not above the right end of its range,
  -- when every page is got and latched at once: the loop over `next_entry` ends with `RECORD_EOF` and
  -- has collected the records of the items from there along the chain of leaves, in their order, up to
  -- the first key above the right end.
  pub collect-until_right :
      (rounds fuel : ℕ) (s : BplusTreeScanner K) (t : BplusTree K R P) (right : Option K)
      (x : K × R) (xs : List (K × R))
      → IsStart t.nodes right s x xs
      → is_behind h.key_comparator right x.0 ≡ false
      → length xs + 1 < rounds
      → (p : P) × (collect h rounds (suc (suc fuel)) try_slatch s t
          ≡ some (
            ok (record_eof, until_right h.key_comparator right (x ∷ xs)),
            record t { pages = p },
          ))
  unfolding collect
  collect-until_right zero fuel s t right x xs w b l = absurd (omega arith)
  collect-until_right (suc rounds) fuel s t right x xs w b l =
      let (e, w') = next_entry-first (suc (suc fuel)) s t right x xs w in
      let s' = record s { first_emitted = true } in
      let (p, ih) = collect-IsAt rounds fuel s' t right xs w' (omega arith) in
      let step = collected h (collect h rounds (suc (suc fuel)) try_slatch) in
      (
        p,
        >>=-of_ok (next_entry h (suc (suc fuel)) try_slatch s) step t (success, some x.1, s') t e
            ∙ >>=-of_ok (collect h rounds (suc (suc fuel)) try_slatch s')
                (λ (rest : Rc × List R). pure (rest.0, x.1 ∷ rest.1)) t
                (record_eof, until_right h.key_comparator right xs) (record t { pages = p }) ih
            ∙ ap
                (λ g. some (
                  ok ((record_eof, until_step g x.1 (until_right h.key_comparator right xs))),
                  record t { pages = p },
                ))
                (sym b),
      )

-- ===== src/BplusTree/Subtree/Erased.antt =====
-- What `delete_entry` does to the items of a whole tree when enough items stay in the leaf.
use miniob_basic.Base.{
  ℕ, ◌-◌, ◌/◌, ◌≤◌, ◌<◌, ◌≡◌, ◌≢◌, refl, sym, ap, subst, ◌∙◌, Bool, true, false, some, List, ◌++◌,
  arith, inl, inr, ◌⊎◌, Bool-cases, dec_lt, le→leb,
}
use miniob_basic.Rc.{record_not_exist}
use miniob_basic.BplusTree.Array.{length-slice}
use miniob_basic.BplusTree.Block.{Block}
use miniob_basic.BplusTree.Block.Laws.{items, without, items-without}
use miniob_basic.BplusTree.Order.{IsOrder, place, erase_sorted, remove_nth-place}
use miniob_basic.BplusTree.Order.Parts.{
  IsWithin, place-lt, erase_sorted-middle, erase_sorted-IsWithin, erase_sorted-IsAscending,
}
use miniob_basic.BplusTree.Node.{leaf, LeafIndexNode, remove_key}
use miniob_basic.BplusTree.Node.Lookup.{remove_key-of_found, remove_key-of_missing}
use miniob_basic.BplusTree.Tree.{
  Handler, BplusTree, ok, failed, set_node, find_leaf, ◌>>=◌, >>=-of_ok, read_leaf, read_header,
  read_leaf-of_leaf,
}
use miniob_basic.BplusTree.Tree.Insert.{asserted}
use miniob_basic.BplusTree.Tree.Delete.{
  delete_key, delete_entry_internal, delete_found, with_code, not_exist_of_empty,
}
use miniob_basic.BplusTree.Subtree.{IsSubtree}
use miniob_basic.BplusTree.Subtree.Find.{IsAnswering, LeafOf, set_node_other}
use miniob_basic.BplusTree.Subtree.Contents.{IsTree, at_leaf}

module _ {ℓ κ μ} {K : Type ℓ} {R : Type κ} {P : Type μ} (h : Handler K R P) where
  -- What becomes of a key of which an entry is to go: `n` is the leaf that the search finds.
  abbrev pub Deletes : BplusTree K R P → (depth fuel : ℕ) → List (K × R) → K → Type (ℓ ⊔ κ ⊔ μ)
  Deletes t depth fuel xs key =
      (page : ℕ) × (n : LeafIndexNode K R) × (s : P) × (find_leaf h fuel key t
        ≡ some (ok page, record t { pages = s }))
      × (t.nodes page ≡ leaf n)
      × ((((place h.key_comparator key xs).1 ≡ false)
            × (delete_key h fuel key t ≡ some (failed record_not_exist, record t { pages = s })))
          ⊎ (((place h.key_comparator key xs).1 ≡ true)
              × (t.header.leaf_max_size - t.header.leaf_max_size / 2 < n.block.size)
              × (t' : BplusTree K R P) × (delete_key h fuel key t ≡ some (ok tt, t'))
              × IsTree h.key_comparator t' depth (erase_sorted h.key_comparator key xs)
              × ((p : ℕ) → p ≢ page → t'.nodes p ≡ t.nodes p))
          ⊎ (((place h.key_comparator key xs).1 ≡ true)
              × (n.block.size ≤ t.header.leaf_max_size - t.header.leaf_max_size / 2)))

module _ {ℓ κ μ} {K : Type ℓ} {R : Type κ} {P : Type μ} (h : Handler K R P)
    (order : IsOrder h.key_comparator) (answering : IsAnswering h.disk_buffer_pool) where
  delete_key-found :
      (t : BplusTree K R P) (depth fuel : ℕ) (xs : List (K × R)) (key : K)
      (w : IsTree h.key_comparator t depth xs)
      (o : LeafOf h.key_comparator key t.nodes depth w.root w.node_pages xs) (s : P) (removed : ℕ)
      (b : Block (K × R))
      → find_leaf h fuel key t ≡ some (ok o.leaf_page, record t { pages = s })
      → remove_key h.key_comparator o.node.block key ≡ some (removed, b)
      → delete_key h fuel key t
        ≡ delete_found h fuel o.leaf_page o.node b removed
            (t.header.leaf_max_size - t.header.leaf_max_size / 2)
            (record t { pages = s })
  unfolding delete_key delete_entry_internal
  delete_key-found t depth fuel xs key w o s removed b e f =
      let t' = record t { pages = s } in
      let half = t.header.leaf_max_size - t.header.leaf_max_size / 2 in
      >>=-of_ok (with_code not_exist_of_empty (find_leaf h fuel key))
        (λ page. delete_entry_internal h fuel page key) t o.leaf_page t' (rw (e, with_code) refl)
      ∙ >>=-of_ok (read_leaf o.leaf_page)
          (λ (n : LeafIndexNode K R). read_header >>= λ header.
            asserted (remove_key h.key_comparator n.block key) >>= λ (r : ℕ × Block (K × R)).
            delete_found h fuel o.leaf_page n r.1 r.0
              (header.leaf_max_size - header.leaf_max_size / 2))
          t' o.node t' (read_leaf-of_leaf o.leaf_page t' o.node o.at_page)
      ∙ >>=-of_ok (asserted (remove_key h.key_comparator o.node.block key))
          (λ (r : ℕ × Block (K × R)). delete_found h fuel o.leaf_page o.node r.1 r.0 half) t'
          (removed, b) t' (rw (f, asserted) refl)

  -- The tree behind a removal from the leaf.
  erased :
      (t : BplusTree K R P) (depth : ℕ) (xs : List (K × R)) (key : K)
      (w : IsTree h.key_comparator t depth xs)
      (o : LeafOf h.key_comparator key t.nodes depth w.root w.node_pages xs) (s : P)
      (b : Block (K × R))
      → items b ≡ erase_sorted h.key_comparator key (items o.node.block)
      → IsTree h.key_comparator
          (record t {
            nodes = set_node t.nodes o.leaf_page (leaf (record o.node { block = b }));
            pages = s;
          })
          depth
          (erase_sorted h.key_comparator key xs)
  erased t depth xs key w o s b it =
      let cmp = h.key_comparator in
      let old = items o.node.block in
      let m = record o.node { block = b } in
      record {
        root = w.root;
        node_pages = w.node_pages;
        is_root = w.is_root;
        subtree =
            subst (IsSubtree cmp (set_node t.nodes o.leaf_page (leaf m)) depth w.root w.node_pages)
              (ap (λ ys. o.before ++ (ys ++ o.behind)) it
                ∙ sym (
                    erase_sorted-middle cmp key o.before old o.behind o.before_below o.behind_above)
                ∙ ap (erase_sorted cmp key) (sym o.all_items))
              (o.put m (subst (IsWithin key old) (sym it) (erase_sorted-IsWithin cmp key old)));
        ascending = erase_sorted-IsAscending cmp order key xs w.ascending;
      }

  -- When the comparison is an order and the pool gives every page, in a tree of any depth, with fuel
  -- for its depth: for a key that the tree has not,
  -- `RECORD_NOT_EXIST` is given and no node changes; one that it has is taken out of its items when the
  -- leaf that the search finds has more items than the least number, the rest is a tree again, and no
  -- page but that leaf's changes.
  pub delete_key-erase_sorted :
      (t : BplusTree K R P) (depth fuel : ℕ) (xs : List (K × R)) (key : K)
      → IsTree h.key_comparator t depth xs
      → depth < fuel
      → Deletes h t depth fuel xs key
  delete_key-erase_sorted t depth fuel xs key w l =
      let cmp = h.key_comparator in
      let (o, s, e, f, g) = at_leaf h order answering t depth fuel xs key w l in
      let b = o.node.block in
      let p = place cmp key (items b) in
      let half = t.header.leaf_max_size - t.header.leaf_max_size / 2 in
      let found =
        λ (x : Bool) (q : (place cmp key xs).1 ≡ x). f ∙ ap (λ (y : Bool). (p.0, y)) (g ∙ q) in
      (
        o.leaf_page,
        o.node,
        s,
        e,
        o.at_page,
        elim (Bool-cases ((place cmp key xs).1)) [
          | inr missing ↦ inl (
            missing,
            delete_key-found t depth fuel xs key w o s 0 b e
                (remove_key-of_missing cmp b key p.0 (found false missing)),
          )
          | inl has ↦ inr (elim (dec_lt half b.size) [
            | no few ↦ inr (has, omega arith)
            | yes enough ↦
                let size = length-slice b.array 0 b.size in
                let lt = place-lt cmp key (items b) (g ∙ has) in
                let in_range : p.0 < b.size = omega arith in
                let rest = without b p.0 in
                let t' = record t {
                  nodes = set_node t.nodes o.leaf_page (leaf (record o.node { block = rest }));
                  pages = s;
                } in
                inl (
                  has,
                  enough,
                  t',
                  delete_key-found t depth fuel xs key w o s 1 rest e
                        (remove_key-of_found cmp b key p.0 (found true has) in_range)
                      ∙ rw (le→leb half (b.size - 1) (omega arith)) refl,
                  erased t depth xs key w o s rest
                      (items-without b p.0 in_range ∙ remove_nth-place cmp key (items b) (g ∙ has)),
                  λ q n.
                      set_node_other t.nodes o.leaf_page (leaf (record o.node { block = rest })) q
                        n,
                )
          ])
        ],
      )

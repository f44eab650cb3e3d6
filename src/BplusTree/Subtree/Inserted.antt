-- ===== src/BplusTree/Subtree/Inserted.antt =====
-- What `insert_entry` does to the items of a whole tree when the leaf has room.
use miniob_basic.Base.{
  ℕ, ◌≤◌, ◌<◌, ◌≡◌, ◌≢◌, refl, sym, ap, ap₂, subst, ◌∙◌, Bool, true, false, some, List, ◌++◌, arith,
  inl, inr, ◌⊎◌, Bool-cases, dec_lt, ltb, lt→ltb,
}
use miniob_basic.Rc.{record_duplicate_key}
use miniob_basic.BplusTree.Array.{length-slice}
use miniob_basic.BplusTree.Block.{Block, insert_at}
use miniob_basic.BplusTree.Block.Laws.{items, items-insert_at}
use miniob_basic.BplusTree.Order.{IsOrder, place, insert_sorted, insert_nth-place}
use miniob_basic.BplusTree.Order.Parts.{
  IsWithin, place-le, insert_sorted-middle, insert_sorted-IsWithin, insert_sorted-IsAscending,
}
use miniob_basic.BplusTree.Node.{leaf, LeafIndexNode, lookup_leaf}
use miniob_basic.BplusTree.Tree.{
  Handler, BplusTree, ok, failed, set_node, find_leaf, ◌>>=◌, >>=-of_ok, read_leaf, read_header,
  read_leaf-of_leaf,
}
use miniob_basic.BplusTree.Tree.Entry.{
  insert_key, insert_entry_into_leaf_node, insert_found, insert_below,
}
use miniob_basic.BplusTree.Subtree.{IsSubtree}
use miniob_basic.BplusTree.Subtree.Find.{IsAnswering, LeafOf, set_node_other}
use miniob_basic.BplusTree.Subtree.Contents.{IsTree, at_leaf}

module _ {ℓ κ μ} {K : Type ℓ} {R : Type κ} {P : Type μ} (h : Handler K R P) where
  -- What becomes of an entry for a tree with the items `xs`: `n` is the leaf that the search finds. A
  -- key that the tree has is refused; another one goes to its place among the items of the tree, when
  -- the leaf has room, and no other page changes.
  abbrev pub Inserts : BplusTree K R P → (depth fuel : ℕ) → List (K × R) → K → R → Type (ℓ ⊔ κ ⊔ μ)
  Inserts t depth fuel xs key rid =
      (page : ℕ) × (n : LeafIndexNode K R) × (s : P) × (find_leaf h fuel key t
        ≡ some (ok page, record t { pages = s }))
      × (t.nodes page ≡ leaf n)
      × ((((place h.key_comparator key xs).1 ≡ true)
            × (insert_key h fuel key rid t
                ≡ some (failed record_duplicate_key, record t { pages = s })))
          ⊎ (((place h.key_comparator key xs).1 ≡ false)
              × (n.block.size < t.header.leaf_max_size)
              × (t' : BplusTree K R P) × (insert_key h fuel key rid t ≡ some (ok tt, t'))
              × IsTree h.key_comparator t' depth (insert_sorted h.key_comparator key rid xs)
              × ((p : ℕ) → p ≢ page → t'.nodes p ≡ t.nodes p))
          ⊎ (((place h.key_comparator key xs).1 ≡ false) × (t.header.leaf_max_size ≤ n.block.size)))

module _ {ℓ κ μ} {K : Type ℓ} {R : Type κ} {P : Type μ} (h : Handler K R P)
    (order : IsOrder h.key_comparator) (answering : IsAnswering h.disk_buffer_pool) where
  insert_key-found :
      (t : BplusTree K R P) (depth fuel : ℕ) (xs : List (K × R)) (key : K) (rid : R)
      (w : IsTree h.key_comparator t depth xs)
      (o : LeafOf h.key_comparator key t.nodes depth w.root w.node_pages xs) (s : P)
      (found : ℕ × Bool) (room : Bool)
      → find_leaf h fuel key t ≡ some (ok o.leaf_page, record t { pages = s })
      → lookup_leaf h.key_comparator o.node.block key ≡ found
      → ltb o.node.block.size t.header.leaf_max_size ≡ room
      → insert_key h fuel key rid t
        ≡ insert_found h fuel o.leaf_page key rid o.node found room (record t { pages = s })
  unfolding insert_key insert_entry_into_leaf_node
  insert_key-found t depth fuel xs key rid w o s found room e f g =
      let t' = record t { pages = s } in
      ap (λ r. insert_below h fuel key rid r t) w.is_root
      ∙ >>=-of_ok (find_leaf h fuel key) (λ page. insert_entry_into_leaf_node h fuel page key rid) t
          o.leaf_page t' e
      ∙ >>=-of_ok (read_leaf o.leaf_page)
          (λ (n : LeafIndexNode K R). read_header >>= λ header.
            insert_found h fuel o.leaf_page key rid n (lookup_leaf h.key_comparator n.block key)
              (ltb n.block.size header.leaf_max_size))
          t' o.node t' (read_leaf-of_leaf o.leaf_page t' o.node o.at_page)
      ∙ ap₂ (λ (r : ℕ × Bool) (b : Bool). insert_found h fuel o.leaf_page key rid o.node r b t') f g

  inserted_items :
      (b : Block (K × R)) (key : K) (rid : R)
      → items (insert_at b (place h.key_comparator key (items b)).0 (key, rid))
        ≡ insert_sorted h.key_comparator key rid (items b)
  inserted_items b key rid =
      let cmp = h.key_comparator in
      let le = place-le cmp key (items b) in
      let size = length-slice b.array 0 b.size in
      items-insert_at b ((place cmp key (items b)).0) (key, rid) (omega arith)
      ∙ insert_nth-place cmp key rid (items b)

  -- The tree behind an insertion into the leaf.
  inserted :
      (t : BplusTree K R P) (depth : ℕ) (xs : List (K × R)) (key : K) (rid : R)
      (w : IsTree h.key_comparator t depth xs)
      (o : LeafOf h.key_comparator key t.nodes depth w.root w.node_pages xs) (s : P)
      → (place h.key_comparator key xs).1 ≡ false
      → IsTree h.key_comparator
          (record t {
            nodes = set_node t.nodes o.leaf_page (
                leaf (record o.node {
                  block =
                      insert_at o.node.block
                        (place h.key_comparator key (items o.node.block)).0
                        (key, rid);
                }));
            pages = s;
          })
          depth
          (insert_sorted h.key_comparator key rid xs)
  inserted t depth xs key rid w o s new =
      let cmp = h.key_comparator in
      let b = o.node.block in
      let m = record o.node { block = insert_at b (place cmp key (items b)).0 (key, rid) } in
      let it = inserted_items b key rid in
      record {
        root = w.root;
        node_pages = w.node_pages;
        is_root = w.is_root;
        subtree =
            subst (IsSubtree cmp (set_node t.nodes o.leaf_page (leaf m)) depth w.root w.node_pages)
              (ap (λ ys. o.before ++ (ys ++ o.behind)) it
                ∙ sym (
                    insert_sorted-middle cmp key rid o.before (items b) o.behind o.before_below
                      o.behind_above)
                ∙ ap (insert_sorted cmp key rid) (sym o.all_items))
              (o.put m (
                subst (IsWithin key (items b)) (sym it)
                  (insert_sorted-IsWithin cmp key rid (items b))));
        ascending = insert_sorted-IsAscending cmp order key rid xs w.ascending new;
      }

  -- When the comparison is an order and the pool gives every page, in a tree of any depth, with fuel
  -- for its depth: a key that the tree has is refused as a duplicate
  -- and no node changes; another one goes, when the leaf that the search finds has room, to its place
  -- among the items of the tree, which is a tree again, and no page but that leaf's changes.
  pub insert_key-insert_sorted :
      (t : BplusTree K R P) (depth fuel : ℕ) (xs : List (K × R)) (key : K) (rid : R)
      → IsTree h.key_comparator t depth xs
      → depth < fuel
      → Inserts h t depth fuel xs key rid
  insert_key-insert_sorted t depth fuel xs key rid w l =
      let cmp = h.key_comparator in
      let (o, s, e, f, g) = at_leaf h order answering t depth fuel xs key w l in
      let b = o.node.block in
      let p = place cmp key (items b) in
      let found =
        λ (x : Bool) (q : (place cmp key xs).1 ≡ x). f ∙ ap (λ (y : Bool). (p.0, y)) (g ∙ q) in
      (
        o.leaf_page,
        o.node,
        s,
        e,
        o.at_page,
        elim (Bool-cases ((place cmp key xs).1)) [
          | inl has ↦ inl (
            has,
            insert_key-found t depth fuel xs key rid w o s (p.0, true)
                (ltb b.size t.header.leaf_max_size) e (found true has) refl,
          )
          | inr new ↦ inr (elim (dec_lt b.size t.header.leaf_max_size) [
            | no full ↦ inr (new, omega arith)
            | yes room ↦
                let m = record o.node { block = insert_at b p.0 (key, rid) } in
                let t' = record t { nodes = set_node t.nodes o.leaf_page (leaf m); pages = s } in
                inl (
                  new,
                  room,
                  t',
                  insert_key-found t depth fuel xs key rid w o s (p.0, false) true e
                      (found false new) (lt→ltb b.size t.header.leaf_max_size room),
                  inserted t depth xs key rid w o s new,
                  λ q n. set_node_other t.nodes o.leaf_page (leaf m) q n,
                )
          ])
        ],
      )

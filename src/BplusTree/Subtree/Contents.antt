-- ===== src/BplusTree/Subtree/Contents.antt =====
-- What the operations do to the items of a whole tree.
use miniob_basic.Base.{ℕ, ◌<◌, ◌≡◌, sym, ap, subst, ◌∙◌, some, List, [], ◌∷◌, ◌++◌}
use miniob_basic.Base.Int.{ℤ}
use miniob_basic.LowerBound.{below, sign}
use miniob_basic.BplusTree.Block.Laws.{items}
use miniob_basic.BplusTree.Order.{IsOrder, All-parts, IsAscending, place}
use miniob_basic.BplusTree.Order.Parts.{place-middle}
use miniob_basic.BplusTree.Node.{leaf, LeafIndexNode, lookup_leaf}
use miniob_basic.BplusTree.Node.Lookup.{lookup_leaf-place}
use miniob_basic.BplusTree.Tree.{Handler, BplusTree, ok, find_leaf}
use miniob_basic.BplusTree.Subtree.{IsSubtree}
use miniob_basic.BplusTree.Subtree.Find.{IsAnswering, LeafOf, leaf_of, find_leaf-leaf_of}

-- A tree in its pages: its root, the pages of its nodes, and its items in the order of their keys.
pub record IsTree {ℓ κ μ} {K : Type ℓ} {R : Type κ} {P : Type μ} (cmp : K → K → ℤ)
    (t : BplusTree K R P) (depth : ℕ) (xs : List (K × R)) : Type (ℓ ⊔ κ) where
  pub root : ℕ
  pub node_pages : List ℕ
  pub is_root : t.header.root_page ≡ some root
  pub subtree : IsSubtree cmp t.nodes depth root node_pages xs
  pub ascending : IsAscending cmp xs

IsAscending-middle {ℓ κ} :
    {K : Type ℓ} {V : Type κ} (cmp : K → K → ℤ) (us vs ws : List (K × V))
    → IsAscending cmp (us ++ (vs ++ ws))
    → IsAscending cmp vs
IsAscending-middle cmp [] [] ws h = tt
IsAscending-middle cmp [] (v ∷ vs) ws h = (
  (All-parts (λ y. sign (cmp v.0 y.0) ≡ below) vs ws (h.0)).0,
  IsAscending-middle cmp [] vs ws (h.1),
)
IsAscending-middle cmp (u ∷ us) vs ws h = IsAscending-middle cmp us vs ws (h.1)

module _ {ℓ κ μ} {K : Type ℓ} {R : Type κ} {P : Type μ} (h : Handler K R P)
    (order : IsOrder h.key_comparator) (answering : IsAnswering h.disk_buffer_pool) where
  -- What the search gives, for the theorems about what is done in the leaf.
  pub at_leaf :
      (t : BplusTree K R P) (depth fuel : ℕ) (xs : List (K × R)) (key : K)
      (w : IsTree h.key_comparator t depth xs)
      → depth < fuel
      → (o : LeafOf h.key_comparator key t.nodes depth w.root w.node_pages xs) × (s : P)
        × (find_leaf h fuel key t ≡ some (ok o.leaf_page, record t { pages = s }))
        × (lookup_leaf h.key_comparator o.node.block key
            ≡ place h.key_comparator key (items o.node.block))
        × ((place h.key_comparator key (items o.node.block)).1 ≡ (place h.key_comparator key xs).1)
  at_leaf t depth fuel xs key w l =
      let cmp = h.key_comparator in
      let o = leaf_of cmp key order t.nodes depth w.root w.node_pages xs w.subtree in
      let (s, e) =
        find_leaf-leaf_of h answering order key fuel depth w.root w.node_pages xs t w.subtree
          w.is_root l in
      let asc =
        IsAscending-middle cmp o.before (items o.node.block) o.behind
          (subst (IsAscending cmp) o.all_items w.ascending) in
      (
        o,
        s,
        e,
        lookup_leaf-place cmp order o.node.block key asc,
        sym (
              place-middle cmp key o.before (items o.node.block) o.behind o.before_below
                o.behind_above)
            ∙ ap (λ ys. (place cmp key ys).1) (sym o.all_items),
      )

  -- When the comparison is an order and the pool gives every page, the search, with fuel for the depth
  -- of the tree, goes to a leaf, and finds the key there exactly when a walk over all items of the tree
  -- does; no node changes.
  pub find_leaf-lookup_leaf :
      (t : BplusTree K R P) (depth fuel : ℕ) (xs : List (K × R)) (key : K)
      → IsTree h.key_comparator t depth xs
      → depth < fuel
      → (page : ℕ) × (n : LeafIndexNode K R) × (s : P) × (find_leaf h fuel key t
          ≡ some (ok page, record t { pages = s }))
        × (t.nodes page ≡ leaf n)
        × ((lookup_leaf h.key_comparator n.block key).1 ≡ (place h.key_comparator key xs).1)
  find_leaf-lookup_leaf t depth fuel xs key w l =
      let (o, s, e, f, g) = at_leaf t depth fuel xs key w l in
      (o.leaf_page, o.node, s, e, o.at_page, ap (λ r. r.1) f ∙ g)

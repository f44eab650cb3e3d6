-- ===== src/BplusTree/Subtree/Find.antt =====
-- `find_leaf` finds the leaf of a key.
use miniob_basic.Base.{
  ℕ, zero, suc, ◌-◌, ◌<◌, ◌≡◌, ◌≢◌, refl, sym, ap, subst, ◌∙◌, true, some, List, [], ◌++◌, arith,
  append_assoc, append-nil, ==_iff, ==_ne, lt→ltb,
}
use miniob_basic.Base.Int.{ℤ}
use miniob_basic.Rc.{is_success}
use miniob_basic.LowerBound.{below, above, sign}
use miniob_basic.BplusTree.Array.{slice}
use miniob_basic.BplusTree.Block.{item_at}
use miniob_basic.BplusTree.Block.Laws.{items}
use miniob_basic.BplusTree.Order.{IsOrder, All, All-append, All-parts}
use miniob_basic.BplusTree.Order.Parts.{IsWithin}
use miniob_basic.BplusTree.Node.{leaf, LeafIndexNode, InternalIndexNode, IndexNode, lookup_internal}
use miniob_basic.BplusTree.Node.Lookup.{child_for, lookup_internal-child_for}
use miniob_basic.BplusTree.Tree.{
  Pool, Handler, BplusTree, Op, ok, set_node, get_page, ◌>>=◌, value_at, child_of_key,
  find_leaf_from, find_leaf_below, find_leaf_internal, find_leaf,
}
use miniob_basic.BplusTree.Subtree.{IsBelow, IsAbove, IsForest, IsSubtree}
use miniob_basic.BplusTree.Subtree.Leaf.{IsIn, ChildOf, child_of, subtree_stays}

-- The leaf of a key, the items of the tree before and behind those of the leaf, and what the tree
-- holds when the leaf gets other items.
pub record LeafOf {ℓ κ} {K : Type ℓ} {R : Type κ} (cmp : K → K → ℤ) (key : K)
    (nodes : ℕ → IndexNode K R) (depth page : ℕ) (ps : List ℕ) (xs : List (K × R))
    : Type ((ℓ ⊔ κ) + 1) where
  pub leaf_page : ℕ
  pub node : LeafIndexNode K R
  pub before : List (K × R)
  pub behind : List (K × R)
  pub at_page : nodes leaf_page ≡ leaf node
  pub all_items : xs ≡ before ++ (items node.block ++ behind)
  pub before_below : IsBelow cmp key before
  pub behind_above : IsAbove cmp key behind
  pub in_pages : IsIn leaf_page ps
  pub put :
      (m : LeafIndexNode K R)
      → IsWithin key (items node.block) (items m.block)
      → IsSubtree cmp
          (set_node nodes leaf_page (leaf m))
          depth
          page
          ps
          (before ++ (items m.block ++ behind))

-- The pool gives every page that it is asked for.
abbrev pub IsAnswering {ℓ} : {P : Type ℓ} → Pool P → Type ℓ
IsAnswering {P = P} pool = (s : P) (p : ℕ) → is_success ((pool.get_page s p).0) ≡ true

module _ {ℓ κ} {K : Type ℓ} {R : Type κ} where
  pub set_node_other :
      (nodes : ℕ → IndexNode K R) (q : ℕ) (n : IndexNode K R) (p : ℕ)
      → p ≢ q
      → set_node nodes q n p ≡ nodes p
  set_node_other nodes q n p h = rw (==_ne p q h) refl

  set_node_self : (nodes : ℕ → IndexNode K R) (q : ℕ) (n : IndexNode K R) → set_node nodes q n q ≡ n
  set_node_self nodes q n = rw ((==_iff q q).1 refl) refl

module _ {ℓ κ} {K : Type ℓ} {R : Type κ} (cmp : K → K → ℤ) (key : K) where
  leaf_itself :
      (nodes : ℕ → IndexNode K R) (page : ℕ) (ps : List ℕ) (xs : List (K × R))
      → IsSubtree cmp nodes zero page ps xs
      → LeafOf cmp key nodes zero page ps xs
  leaf_itself nodes page ps xs (n, at, e, g) = record {
    leaf_page = page;
    node = n;
    before = [];
    behind = [];
    at_page = at;
    all_items = sym e ∙ sym (append-nil (items n.block));
    before_below = tt;
    behind_above = tt;
    in_pages = λ Q all. (subst (All Q) g all).0;
    put = λ m w. (m, set_node_self nodes page (leaf m), sym (append-nil (items m.block)), g);
  }

  regroup :
      (us vs ws xs ys : List (K × R))
      → us ++ ((vs ++ (ws ++ xs)) ++ ys) ≡ (us ++ vs) ++ (ws ++ (xs ++ ys))
  regroup us vs ws xs ys =
      ap (◌++◌ us) (append_assoc vs (ws ++ xs) ys ∙ ap (◌++◌ vs) (append_assoc ws xs ys))
      ∙ sym (append_assoc us vs (ws ++ (xs ++ ys)))

  leaf_below :
      (nodes : ℕ → IndexNode K R) (depth page : ℕ) (ps : List ℕ) (xs : List (K × R))
      (w : IsSubtree cmp nodes (suc depth) page ps xs)
      (c : ChildOf cmp key
        (IsSubtree cmp nodes depth)
        (w.0.children.array 0).1
        (slice w.0.children.array 1 (w.0.children.size - 1))
        w.1
        xs)
      → LeafOf cmp key nodes depth
          (child_for cmp key
            (w.0.children.array 0).1
            (slice w.0.children.array 1 (w.0.children.size - 1)))
          c.child_pages
          c.child_items
      → LeafOf cmp key nodes (suc depth) page ps xs
  leaf_below nodes depth page ps xs (n, qs, at, pos, asc, e, a, f) c o = record {
    leaf_page = o.leaf_page;
    node = o.node;
    before = c.before ++ o.before;
    behind = o.behind ++ c.behind;
    at_page = o.at_page;
    all_items =
        c.all_items
        ∙ ap (λ us. c.before ++ (us ++ c.behind)) o.all_items
        ∙ regroup c.before o.before (items o.node.block) o.behind c.behind;
    before_below =
        All-append (λ x. sign (cmp x.0 key) ≡ below) c.before o.before c.before_below
          o.before_below;
    behind_above =
        All-append (λ x. sign (cmp x.0 key) ≡ above) o.behind c.behind o.behind_above
          c.behind_above;
    in_pages = λ Q all. o.in_pages Q (c.pages_in Q ((subst (All Q) e all).1));
    put = λ m w.
        let q = o.leaf_page in
        let nodes' = set_node nodes q (leaf m) in
        let apart : page ≢ q = o.in_pages (λ p. page ≢ p) (c.pages_in (λ p. page ≢ p) (a.0)) in
        let ys = slice n.children.array 1 (n.children.size - 1) in
        (
          n,
          qs,
          set_node_other nodes q (leaf m) page apart ∙ at,
          pos,
          asc,
          e,
          a,
          subst (IsForest cmp (IsSubtree cmp nodes' depth) (n.children.array 0).1 ys qs)
              (regroup c.before o.before (items m.block) o.behind c.behind)
              (c.put (IsSubtree cmp nodes' depth) q (o.before ++ (items m.block ++ o.behind))
                o.in_pages (o.put m w)
                (subtree_stays cmp nodes nodes' (λ p. p ≢ q) (set_node_other nodes q (leaf m))
                  depth)
                (within_middle c.child_items o.before (items o.node.block) o.behind (items m.block)
                  o.all_items w)),
        );
  }
    where
      within_middle :
          (xs us vs ws vs' : List (K × R))
          → xs ≡ us ++ (vs ++ ws)
          → IsWithin key vs vs'
          → IsWithin key xs (us ++ (vs' ++ ws))
      within_middle xs us vs ws vs' e w Q all k =
          let P = λ (x : K × R). Q x.0 in
          let (i, j) = All-parts P us (vs ++ ws) (subst (All P) e all) in
          let (j', l) = All-parts P vs ws j in
          All-append P us (vs' ++ ws) i (All-append P vs' ws (w Q j' k) l)

  pub leaf_of :
      IsOrder cmp
      → (nodes : ℕ → IndexNode K R) (depth page : ℕ) (ps : List ℕ) (xs : List (K × R))
      → IsSubtree cmp nodes depth page ps xs
      → LeafOf cmp key nodes depth page ps xs
  leaf_of order nodes zero page ps xs w = leaf_itself nodes page ps xs w
  leaf_of order nodes (suc depth) page ps xs (n, qs, at, pos, asc, e, a, f) =
      let ys = slice n.children.array 1 (n.children.size - 1) in
      let c =
        child_of cmp order key (IsSubtree cmp nodes depth) (n.children.array 0).1 ys qs xs f in
      leaf_below nodes depth page ps xs (n, qs, at, pos, asc, e, a, f) c
        (leaf_of order nodes depth (child_for cmp key (n.children.array 0).1 ys) c.child_pages
          c.child_items c.is_child)

value_at-at {ℓ} :
    {K : Type ℓ} (n : InternalIndexNode K) (i : ℕ) (p : ℕ)
    → i < n.children.size
    → (n.children.array i).1 ≡ p
    → value_at n i ≡ some p
unfolding value_at item_at
value_at-at n i p h e = rw (lt→ltb i n.children.size h, value_at) (ap some e)

module _ {ℓ κ μ} {K : Type ℓ} {R : Type κ} {P : Type μ} (h : Handler K R P)
    (answering : IsAnswering h.disk_buffer_pool) where
  get_page-bind {ν} :
      {B : Type ν} (p : ℕ) (k : Unit {0} → Op (BplusTree K R P) B) (t : BplusTree K R P)
      → (get_page h p >>= k) t
        ≡ k tt (record t { pages = (h.disk_buffer_pool.get_page t.pages p).1 })
  unfolding get_page
  get_page-bind p k t = rw (answering t.pages p, ◌>>=◌, get_page) refl

  find_leaf_from-leaf_of :
      (order : IsOrder h.key_comparator) (key : K) (nodes : ℕ → IndexNode K R) (fuel depth page : ℕ)
      (ps : List ℕ) (xs : List (K × R)) (w : IsSubtree h.key_comparator nodes depth page ps xs)
      (t : BplusTree K R P)
      → t.nodes ≡ nodes
      → depth < fuel
      → (s : P) × (find_leaf_from h fuel (child_of_key h.key_comparator key) page t
          ≡ some (
            ok ((leaf_of h.key_comparator key order nodes depth page ps xs w).leaf_page),
            record t { pages = s },
          ))
  unfolding leaf_of leaf_itself leaf_below find_leaf_from
  find_leaf_from-leaf_of order key nodes zero depth page ps xs w t e l = absurd (omega arith)
  find_leaf_from-leaf_of order key nodes (suc fuel) zero page ps xs (n, at, f, g) t e l =
      (t.pages, rw (ap (λ m. m page) e ∙ at, find_leaf_from) refl)
  find_leaf_from-leaf_of order key nodes (suc fuel) (suc depth) page ps xs
        (n, qs, at, pos, asc, f, a, w) t e l =
      let cmp = h.key_comparator in
      let b = n.children in
      let ys = slice b.array 1 (b.size - 1) in
      let next = child_for cmp key (b.array 0).1 ys in
      let c = child_of cmp order key (IsSubtree cmp nodes depth) (b.array 0).1 ys qs xs w in
      let r = lookup_internal-child_for cmp order b key pos asc in
      let v = value_at-at n ((lookup_internal cmp b key).0) next (r.0) (r.1) in
      let t' = record t { pages = (h.disk_buffer_pool.get_page t.pages next).1 } in
      let (s, ih) =
        find_leaf_from-leaf_of order key nodes fuel depth next c.child_pages c.child_items
          c.is_child t' e (omega arith) in
      (
        s,
        rw (ap (λ m. m page) e ∙ at, v, find_leaf_from)
            (get_page-bind next (λ u. find_leaf_from h fuel (child_of_key cmp key) next) t ∙ ih),
      )

  pub find_leaf-leaf_of :
      (order : IsOrder h.key_comparator) (key : K) (fuel depth page : ℕ) (ps : List ℕ)
      (xs : List (K × R)) (t : BplusTree K R P)
      (w : IsSubtree h.key_comparator t.nodes depth page ps xs)
      → t.header.root_page ≡ some page
      → depth < fuel
      → (s : P) × (find_leaf h fuel key t
          ≡ some (
            ok ((leaf_of h.key_comparator key order t.nodes depth page ps xs w).leaf_page),
            record t { pages = s },
          ))
  unfolding find_leaf find_leaf_internal
  find_leaf-leaf_of order key fuel depth page ps xs t w e l =
      let t' = record t { pages = (h.disk_buffer_pool.get_page t.pages page).1 } in
      let (s, f) = find_leaf_from-leaf_of order key t.nodes fuel depth page ps xs w t' refl l in
      (
        s,
        ap (λ r. find_leaf_below h fuel (child_of_key h.key_comparator key) r t) e
            ∙ get_page-bind page
                (λ u. find_leaf_from h fuel (child_of_key h.key_comparator key) page) t
            ∙ f,
      )

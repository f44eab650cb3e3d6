-- ===== src/BplusTree/Tree/Insert.antt =====
-- bplus_tree.cpp: how an entry goes into the tree.
use miniob_basic.Base.{ℕ, ◌+◌, ◌-◌, ◌/◌, none, some, List, [], ◌∷◌}
use miniob_basic.Rc.{Run}
use miniob_basic.LowerBound.{below, equal, above, sign}
use miniob_basic.BplusTree.Array.{memcpy, slice}
use miniob_basic.BplusTree.Block.{Block, item_at, move_half_to}
use miniob_basic.BplusTree.Node.{
  leaf, internal, empty_leaf, empty_internal, insert_child, create_new_root,
}
use miniob_basic.BplusTree.Tree.{
  Handler, BplusTree, ok, Op, ◌>>=◌, ◌>>◌, pure, write_node, read_leaf, read_internal, set_parent,
  update_root_page_num, get_page, allocate_page,
}

-- The result of a step that is not looked at.
abbrev pub whatever {ℓ κ} : {S : Type ℓ} {A : Type κ} → Op S A → Op S (Unit {0})
whatever m t = elim (m t) [ none ↦ none | some (r, t') ↦ some (ok tt, t') ]

-- A step that an `assert` may stop.
abbrev pub asserted {ℓ κ} : {S : Type ℓ} {A : Type κ} → Run A → Op S A
asserted m t = elim m [ none ↦ none | some a ↦ some (ok a, t) ]

unfoldable pub key_at {ℓ κ} : {K : Type ℓ} {V : Type κ} → Block (K × V) → ℕ → Run K
key_at b index = elim (item_at b index) [ none ↦ none | some item ↦ some item.0 ]

module _ {ℓ κ μ} {K : Type ℓ} {R : Type κ} {P : Type μ} (h : Handler K R P) where
  -- The loop of `copy_from`: the children get this page as their parent.
  unfoldable pub adopt : ℕ → List (K × ℕ) → Op (BplusTree K R P) (Unit {0})
  adopt this_page [] = pure tt
  adopt this_page (x ∷ xs) = do get_page h x.1; set_parent x.1 (some this_page); adopt this_page xs

  -- `num` children of another node from `start` on go to the end of this page's node.
  unfoldable pub copy_children_from :
      ℕ → Block (K × ℕ) → (start num : ℕ) → Op (BplusTree K R P) (Unit {0})
  copy_children_from this_page other start num = do
    n ← read_internal this_page
    let b = n.children
    write_node this_page (
        internal (record n {
          children = record b { array = memcpy b.array b.size other.array start num };
        }))
    adopt this_page (slice other.array start num)
    n' ← read_internal this_page
    let b' = n'.children
    write_node this_page (internal (record n' { children = record b' { size = b'.size + num } }))

  -- `InternalIndexNodeHandler::move_half_to`
  unfoldable pub move_half_of_children : (page other : ℕ) → Op (BplusTree K R P) (Unit {0})
  move_half_of_children page other = do
    n ← read_internal page
    let size = n.children.size
    copy_children_from other n.children (size / 2) (size - size / 2)
    n' ← read_internal page
    write_node page (
        internal (record n' {
          children = record n'.children { size = n'.children.size - (size - size / 2) };
        }))

  unfoldable pub split_leaf : ℕ → Op (BplusTree K R P) ℕ
  split_leaf page = do
    new_page ← allocate_page h
    old ← read_leaf page
    let fresh = empty_leaf h.new_items
    let halves = move_half_to old.block fresh.block
    write_node page (leaf (record old { block = halves.0 }))
    write_node new_page (leaf (record fresh { parent = old.parent; block = halves.1 }))
    pure new_page

  unfoldable pub split_internal : ℕ → Op (BplusTree K R P) ℕ
  split_internal page = do
    new_page ← allocate_page h
    old ← read_internal page
    write_node new_page
        (internal (record (empty_internal h.new_children) { parent_page = old.parent_page }))
    whatever (move_half_of_children page new_page)
    pure new_page

  unfoldable pub grow_root : (page new_page : ℕ) → K → Op (BplusTree K R P) (Unit {0})
  grow_root page new_page key = do
    root_page ← allocate_page h
    let fresh = empty_internal h.new_children
    write_node root_page (
        internal
          (record fresh { children = create_new_root fresh.children h.zero_key page key new_page }))
    set_parent page (some root_page)
    set_parent new_page (some root_page)
    update_root_page_num (some root_page)

  -- A child with its separator goes into one half of a split node.
  unfoldable pub insert_into_half : (page new_page child : ℕ) → K → Op (BplusTree K R P) (Unit {0})
  insert_into_half page new_page child key = do
    right ← read_internal new_page
    first ← asserted (key_at right.children 0)
    elim (sign (h.key_comparator key first)) [
      | above ↦ do
        write_node new_page (
            internal
              (record right { children = insert_child h.key_comparator right.children key child }))
        set_parent child (some new_page)
      | below ↦ insert_left
      | equal ↦ insert_left
    ]
    where
      insert_left : Op (BplusTree K R P) (Unit {0})
      insert_left = do
        left ← read_internal page
        write_node page (
            internal
              (record left { children = insert_child h.key_comparator left.children key child }))
        set_parent child (some page)

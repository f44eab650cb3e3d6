-- ===== src/BplusTree/Tree/Entry.antt =====
-- bplus_tree.cpp: how an entry goes into a leaf, and a separator for each split node into its parent.
use miniob_basic.Base.{ℕ, zero, suc, ◌-◌, Bool, true, false, Option, none, some, ltb, if◌then◌else◌}
use miniob_basic.Rc.{Rc, invalid_argument, nomem, record_duplicate_key}
use miniob_basic.BplusTree.Block.{insert_at}
use miniob_basic.BplusTree.Node.{
  leaf, internal, LeafIndexNode, parent_page_num, empty_leaf, lookup_leaf, insert_child,
}
use miniob_basic.BplusTree.Tree.{
  Handler, BplusTree, Op, ◌>>=◌, ◌>>◌, fail, read_header, read_node, write_node, read_leaf,
  read_internal, set_parent, update_root_page_num, get_page, allocate_page, find_leaf,
}
use miniob_basic.BplusTree.Tree.Insert.{
  asserted, key_at, split_leaf, split_internal, grow_root, insert_into_half,
}

module _ {ℓ κ μ} {K : Type ℓ} {R : Type κ} {P : Type μ} (h : Handler K R P) where
  -- With fuel for the pages from a leaf to the root.
  unfoldable pub insert_entry_into_parent :
      ℕ → (page new_page : ℕ) → K → Op (BplusTree K R P) (Unit {0})
  insert_entry_into_parent zero page new_page key = λ t. none
  insert_entry_into_parent (suc fuel) page new_page key = do
    n ← read_node page
    elim (parent_page_num n) [
      | none ↦ grow_root h page new_page key
      | some parent ↦ do
        get_page h parent
        m ← read_internal parent
        header ← read_header
        elim (ltb m.children.size header.internal_max_size) [
          | true ↦ do
            write_node parent (
                internal
                  (record m { children = insert_child h.key_comparator m.children key new_page }))
            set_parent new_page (some parent)
          | false ↦ do
            new_parent ← split_internal h parent
            insert_into_half h parent new_parent new_page key
            right ← read_internal new_parent
            separator ← asserted (key_at right.children 0)
            insert_entry_into_parent fuel parent new_parent separator
        ]
    ]

  -- Behind the split of a leaf: the entry goes to its place in one of the halves.
  unfoldable pub insert_into_split_leaf :
      ℕ → (page new_page position : ℕ) → K → R → Op (BplusTree K R P) (Unit {0})
  insert_into_split_leaf fuel page new_page position key rid = do
    left ← read_leaf page
    right ← read_leaf new_page
    let size = left.block.size
    let here = ltb position size
    let left_block = if here then insert_at left.block position (key, rid) else left.block
    let right_block =
        if here then right.block else insert_at right.block (position - size) (key, rid)
    write_node page (leaf (record left { next_brother = some new_page; block = left_block }))
    write_node new_page (
        leaf
          (record { parent = left.parent; next_brother = left.next_brother; block = right_block }))
    separator ← asserted (key_at right_block 0)
    insert_entry_into_parent fuel page new_page separator

  -- Behind the search in the leaf, which gives the place of the key and whether it is there.
  abbrev pub insert_found :
      ℕ
      → ℕ
      → K
      → R
      → LeafIndexNode K R
      → ℕ × Bool
      → (has_room : Bool) → Op (BplusTree K R P) (Unit {0})
  insert_found fuel page key rid n (position, true) has_room = fail record_duplicate_key
  insert_found fuel page key rid n (position, false) true =
      write_node page (leaf (record n { block = insert_at n.block position (key, rid) }))
  insert_found fuel page key rid n (position, false) false = do
    new_page ← split_leaf h page
    insert_into_split_leaf fuel page new_page position key rid

  unfoldable pub insert_entry_into_leaf_node : ℕ → ℕ → K → R → Op (BplusTree K R P) (Unit {0})
  insert_entry_into_leaf_node fuel page key rid = do
    n ← read_leaf page
    header ← read_header
    insert_found fuel page key rid n (lookup_leaf h.key_comparator n.block key)
        (ltb n.block.size header.leaf_max_size)

  unfoldable pub create_new_tree : K → R → Op (BplusTree K R P) (Unit {0})
  create_new_tree key rid = do
    header ← read_header
    elim header.root_page [
      | some root ↦ fail Rc.internal
      | none ↦ do
        page ← allocate_page h
        let fresh = empty_leaf h.new_items
        write_node page (leaf (record fresh { block = insert_at fresh.block 0 (key, rid) }))
        update_root_page_num (some page)
    ]

  abbrev pub insert_below : ℕ → K → R → Option ℕ → Op (BplusTree K R P) (Unit {0})
  insert_below fuel key rid none = create_new_tree key rid
  insert_below fuel key rid (some root) = do
    page ← find_leaf h fuel key
    insert_entry_into_leaf_node fuel page key rid

  -- Behind `make_key`. `fuel` is more than the height of the tree.
  unfoldable pub insert_key : ℕ → K → R → Op (BplusTree K R P) (Unit {0})
  insert_key fuel key rid = do header ← read_header; insert_below fuel key rid header.root_page

module _ {ℓ κ μ} {U : Type ℓ} {R : Type κ} {P : Type μ} (h : Handler (U × R) R P) where
  -- `room` tells whether the memory pool of keys has an item.
  pub insert_entry : ℕ → (room : Bool) → Option U → Option R → Op (BplusTree (U × R) R P) (Unit {0})
  insert_entry fuel room none rid = fail invalid_argument
  insert_entry fuel room (some user_key) none = fail invalid_argument
  insert_entry fuel false (some user_key) (some rid) = fail nomem
  insert_entry fuel true (some user_key) (some rid) = insert_key h fuel (user_key, rid) rid

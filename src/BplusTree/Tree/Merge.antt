-- ===== src/BplusTree/Tree/Merge.antt =====
-- bplus_tree.cpp: items go from a node to its neighbour, when one of them has too few.
use miniob_basic.Base.{ℕ, ◌+◌, ◌-◌, some, ◌==◌, if◌then◌else◌}
use miniob_basic.Rc.{Run}
use miniob_basic.BplusTree.Array.{memcpy}
use miniob_basic.BplusTree.Block.{
  item_at, remove_at, preappend, move_first_to_end, move_last_to_front, move_to,
}
use miniob_basic.BplusTree.Node.{leaf, internal, IndexNode, set_key_at}
use miniob_basic.BplusTree.Tree.{
  Handler, BplusTree, Op, ◌>>=◌, ◌>>◌, read_node, write_node, read_leaf, read_internal, set_parent,
  get_page, dispose_page,
}
use miniob_basic.BplusTree.Tree.Insert.{whatever, asserted, key_at, copy_children_from}

unfoldable pub key_of {ℓ κ} : {K : Type ℓ} {R : Type κ} → IndexNode K R → ℕ → Run K
key_of (leaf n) index = key_at n.block index
key_of (internal n) index = key_at n.children index

module _ {ℓ κ μ} {K : Type ℓ} {R : Type κ} {P : Type μ} (h : Handler K R P) where
  -- `InternalIndexNodeHandler::move_first_to_end`
  unfoldable pub move_first_child : (page other : ℕ) → Op (BplusTree K R P) (Unit {0})
  move_first_child page other = do
    n ← read_internal page
    item ← asserted (item_at n.children 0)
    copy_children_from h other n.children 0 1
    n' ← read_internal page
    let b = n'.children
    write_node page (
        internal (record n' {
          children = record { size = b.size - 1; array = memcpy b.array 0 b.array 1 (b.size - 1) };
        }))

  -- `InternalIndexNodeHandler::move_last_to_front`
  unfoldable pub move_last_child : (page other : ℕ) → Op (BplusTree K R P) (Unit {0})
  move_last_child page other = do
    n ← read_internal page
    item ← asserted (item_at n.children (n.children.size - 1))
    get_page h item.1
    set_parent item.1 (some other)
    m ← read_internal other
    write_node other (internal (record m { children = preappend m.children item }))
    n' ← read_internal page
    write_node page
        (internal (record n' { children = record n'.children { size = n'.children.size - 1 } }))

  -- The first item goes to the end of the node at its left.
  unfoldable pub move_first : (page other : ℕ) → Op (BplusTree K R P) (Unit {0})
  move_first page other = do
    n ← read_node page
    elim n [
      | internal m ↦ whatever (move_first_child page other)
      | leaf m ↦ do
        l ← read_leaf other
        r ← asserted (move_first_to_end m.block l.block)
        write_node page (leaf (record m { block = r.0 }))
        write_node other (leaf (record l { block = r.1 }))
    ]

  -- The last item goes to the front of the node at its right.
  unfoldable pub move_last : (page other : ℕ) → Op (BplusTree K R P) (Unit {0})
  move_last page other = do
    n ← read_node page
    elim n [
      | internal m ↦ whatever (move_last_child page other)
      | leaf m ↦ do
        l ← read_leaf other
        r ← asserted (move_last_to_front m.block l.block)
        write_node page (leaf (record m { block = r.0 }))
        write_node other (leaf (record l { block = r.1 }))
    ]

  unfoldable pub set_separator : (parent index : ℕ) → K → Op (BplusTree K R P) (Unit {0})
  set_separator parent index key = do
    m ← read_internal parent
    b ← asserted (set_key_at m.children index key)
    write_node parent (internal (record m { children = b }))

  unfoldable pub redistribute : (neighbor page parent index : ℕ) → Op (BplusTree K R P) (Unit {0})
  redistribute neighbor page parent index =
      if index == 0
      then (do
        move_first neighbor page
        n ← read_node neighbor
        key ← asserted (key_of n 0)
        set_separator parent (index + 1) key)
      else (do
        move_last neighbor page
        n ← read_node page
        key ← asserted (key_of n 0)
        set_separator parent index key)

  -- `move_to`, for a node of either kind. The left leaf gets the next page of the right one.
  unfoldable pub move_all : (right left : ℕ) → Op (BplusTree K R P) (Unit {0})
  move_all right left = do
    n ← read_node right
    elim n [
      | internal m ↦ do
        copy_children_from h left m.children 0 m.children.size
        m' ← read_internal right
        write_node right (internal (record m' { children = record m'.children { size = 0 } }))
      | leaf m ↦ do
        l ← read_leaf left
        let r = move_to m.block l.block
        write_node left (leaf (record l { next_brother = m.next_brother; block = r.1 }))
        write_node right (leaf (record m { block = r.0 }))
    ]

  -- `coalesce`, but for what the parent does then.
  unfoldable pub coalesce : (neighbor page parent index : ℕ) → Op (BplusTree K R P) (Unit {0})
  coalesce neighbor page parent index = do
    let left = if index == 0 then page else neighbor
    let right = if index == 0 then neighbor else page
    let place = if index == 0 then index + 1 else index
    m ← read_internal parent
    b ← asserted (remove_at m.children place)
    write_node parent (internal (record m { children = b }))
    move_all right left
    dispose_page h right

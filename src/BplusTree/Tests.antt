-- ===== src/BplusTree/Tests.antt =====
-- A tree of two leaves, and what is done to it.
use miniob_basic.Base.{ℕ, ◌<◌, ◌≡◌, refl, inr, true, false, ◌+◌, some, none, List, [], ◌∷◌, arith}
use miniob_basic.Rc.{Run, success, ioerr_write}
use miniob_basic.LowerBound.{lower_bound, lower_bound_from}
use miniob_basic.BplusTree.Array.{memcpy, write}
use miniob_basic.BplusTree.Block.{
  Block, append, move_first_to_end, item_at, insert_at, remove_at, copy_from, move_half_to, move_to,
}
use miniob_basic.BplusTree.Block.Laws.{items}
use miniob_basic.BplusTree.Order.{place}
use miniob_basic.BplusTree.Node.{
  calc_internal_page_capacity, leaf, internal, LeafIndexNode, IndexNode, lookup_leaf,
  lookup_internal, insert_child, remove_key, set_key_at, create_new_root,
}
use miniob_basic.BplusTree.Node.Lookup.{lookup_internal-child_for}
use miniob_basic.BplusTree.Tree.{
  BplusTree, Result, Op, pure, ok, failed, ◌>>=◌, find_leaf, find_leaf_internal, find_leaf_from,
  get_page, allocate_page, dispose_page, value_at,
}
use miniob_basic.BplusTree.Tree.Insert.{
  key_at, split_leaf, split_internal, grow_root, move_half_of_children, copy_children_from, adopt,
  insert_into_half,
}
use miniob_basic.BplusTree.Tree.Merge.{
  key_of, coalesce, move_all, redistribute, move_first, set_separator,
}
use miniob_basic.BplusTree.Tree.Delete.{
  delete_key, delete_entry_internal, coalesce_or_redistribute, adjust_root,
}
use miniob_basic.BplusTree.Tree.Entry.{
  insert_key, create_new_tree, insert_entry_into_leaf_node, insert_into_split_leaf,
  insert_entry_into_parent,
}
use miniob_basic.BplusTree.Subtree.Find.{IsAnswering}
use miniob_basic.BplusTree.TwoLeaves.{
  compare, compare-IsOrder, array_of, pool, handler, two_leaves, contents,
}
use miniob_basic.BplusTree.IndexFile.{
  Files, IndexFile, create, open_handler, close_handler, sync, open_handler-sync,
}
use miniob_basic.BplusTree.Subtree.Contents.{IsTree, find_leaf-lookup_leaf}
use miniob_basic.BplusTree.Subtree.Inserted.{Inserts, insert_key-insert_sorted}
use miniob_basic.BplusTree.Subtree.Erased.{Deletes, delete_key-erase_sorted}

two_leaves-IsTree : IsTree compare two_leaves 1 contents
two_leaves-IsTree = record {
  root = 1;
  node_pages = 1 ∷ 2 ∷ 3 ∷ [];
  is_root = refl;
  subtree = (
    _,
    2 ∷ 3 ∷ [],
    refl,
    omega arith,
    (tt, tt),
    refl,
    ((omega arith, (omega arith, tt)), tt),
    (
      2 ∷ [],
      3 ∷ [],
      (10, 1) ∷ (20, 2) ∷ [],
      (30, 3) ∷ (40, 4) ∷ (50, 5) ∷ [],
      refl,
      refl,
      ((omega arith, tt), tt),
      (refl, (refl, tt)),
      ((λ h. cc), ((λ h. cc), ((λ h. cc), tt))),
      (_, refl, refl, refl),
      (_, refl, refl, refl),
    ),
  );
  ascending = (
    (refl, (refl, (refl, (refl, tt)))),
    ((refl, (refl, (refl, tt))), ((refl, (refl, tt)), ((refl, tt), (tt, tt)))),
  );
}

answers : IsAnswering pool
answers s p = refl

find_leaf-lookup_leaf_example :
    (page : ℕ) × (n : LeafIndexNode ℕ ℕ) × (s : ℕ) × (find_leaf handler 2 40 two_leaves
      ≡ some (ok page, record two_leaves { pages = s }))
    × (two_leaves.nodes page ≡ leaf n)
    × ((lookup_leaf compare n.block 40).1 ≡ (place compare 40 contents).1)
find_leaf-lookup_leaf_example =
    find_leaf-lookup_leaf handler compare-IsOrder answers two_leaves 1 2 contents 40
      two_leaves-IsTree (omega arith)

insert_key-insert_sorted_example : Inserts handler two_leaves 1 2 contents 35 9
insert_key-insert_sorted_example =
    insert_key-insert_sorted handler compare-IsOrder answers two_leaves 1 2 contents 35 9
      two_leaves-IsTree (omega arith)

delete_key-erase_sorted_example : Deletes handler two_leaves 1 2 contents 40
delete_key-erase_sorted_example =
    delete_key-erase_sorted handler compare-IsOrder answers two_leaves 1 2 contents 40
      two_leaves-IsTree (omega arith)

abbrev root_children : Block (ℕ × ℕ)
root_children = record { size = 2; array = array_of (0, 0) ((0, 2) ∷ (30, 3) ∷ []) }

lookup_internal-child_for_example :
    ((lookup_internal compare root_children 40).0 < 2)
    × ((root_children.array (lookup_internal compare root_children 40).0).1 ≡ 3)
    × ((lookup_internal compare root_children 40).1 ≡ 2)
lookup_internal-child_for_example =
    lookup_internal-child_for compare compare-IsOrder root_children 40 (omega arith) (tt, tt)

-- The items of the leaf in a page.
abbrev leaf_items : IndexNode ℕ ℕ → List (ℕ × ℕ)
leaf_items (leaf n) = items n.block
leaf_items (internal n) = items n.children

abbrev leaf_items_at : Run (Result (Unit {0}) × BplusTree ℕ ℕ ℕ) → ℕ → List (ℕ × ℕ)
leaf_items_at none p = []
leaf_items_at (some (ok u, t)) p = leaf_items (t.nodes p)
leaf_items_at (some (failed rc, t)) p = []

insert_with_room :
    leaf_items_at (insert_key handler 2 35 9 two_leaves) 3
    ≡ (30, 3) ∷ (35, 9) ∷ (40, 4) ∷ (50, 5) ∷ []
unfolding find_leaf find_leaf_internal find_leaf_from get_page value_at item_at lookup_internal
    lookup_leaf lower_bound lower_bound_from memcpy insert_key insert_entry_into_leaf_node insert_at
    write
insert_with_room = refl

-- A second entry splits the leaf.
abbrev insert_twice : Op (BplusTree ℕ ℕ ℕ) (Unit {0})
insert_twice = insert_key handler 2 35 9 >>= λ u. insert_key handler 2 36 9

insert_splits :
    (leaf_items_at (insert_twice two_leaves) 3 ≡ (30, 3) ∷ (35, 9) ∷ [])
    × (leaf_items_at (insert_twice two_leaves) 4 ≡ (36, 9) ∷ (40, 4) ∷ (50, 5) ∷ [])
unfolding find_leaf find_leaf_internal find_leaf_from get_page value_at item_at lookup_internal
    lookup_leaf lower_bound lower_bound_from memcpy insert_key insert_entry_into_leaf_node insert_at
    write allocate_page split_leaf move_half_to copy_from insert_into_split_leaf key_at
    insert_entry_into_parent insert_child
insert_splits = (refl, refl)

-- The left leaf has too few items: the two become one, which is the root.
delete_merges :
    leaf_items_at (delete_key handler 2 10 two_leaves) 2
    ≡ (20, 2) ∷ (30, 3) ∷ (40, 4) ∷ (50, 5) ∷ []
unfolding find_leaf find_leaf_internal find_leaf_from get_page value_at item_at lookup_internal
    lookup_leaf lower_bound lower_bound_from memcpy delete_key delete_entry_internal remove_key
    remove_at coalesce_or_redistribute key_of key_at coalesce move_all move_to copy_from adjust_root
    dispose_page
delete_merges = refl

-- The left leaf gets an item of its neighbour, which has four.
delete_redistributes :
    leaf_items_at ((insert_key handler 2 35 9 >>= λ u. delete_key handler 2 10) two_leaves) 2
    ≡ (20, 2) ∷ (30, 3) ∷ []
unfolding find_leaf find_leaf_internal find_leaf_from get_page value_at item_at lookup_internal
    lookup_leaf lower_bound lower_bound_from memcpy insert_key insert_entry_into_leaf_node insert_at
    write delete_key delete_entry_internal remove_key remove_at coalesce_or_redistribute key_of
    key_at redistribute move_first move_first_to_end append set_separator set_key_at
delete_redistributes = refl

abbrev no_root : BplusTree ℕ ℕ ℕ
no_root = record two_leaves {
  header = record {
    root_page = none;
    internal_max_size = 3;
    leaf_max_size = 2;
    attr_length = 4;
    key_length = 12;
  };
}

abbrev insert_all : List ℕ → Op (BplusTree ℕ ℕ ℕ) (Unit {0})
insert_all [] = pure tt
insert_all (k ∷ ks) = insert_key handler 9 k k >>= λ u. insert_all ks

-- Six keys into an empty tree: three internal nodes lie below its root.
insert_grows :
    leaf_items_at (insert_all (1 ∷ 2 ∷ 3 ∷ 4 ∷ 5 ∷ 6 ∷ []) no_root) 10
    ≡ (0, 6) ∷ (2, 9) ∷ (3, 12) ∷ []
unfolding create_new_tree find_leaf find_leaf_internal find_leaf_from get_page value_at item_at
    lookup_internal lookup_leaf lower_bound lower_bound_from memcpy insert_key
    insert_entry_into_leaf_node insert_at write allocate_page split_leaf move_half_to copy_from
    insert_into_split_leaf key_at insert_entry_into_parent insert_child grow_root create_new_root
    split_internal move_half_of_children copy_children_from adopt insert_into_half
insert_grows = refl

-- The file is the number of pages in it.
abbrev files : Files ℕ
files = record {
  create_file = λ p. (success, 0);
  open_file = λ p. (success, p);
  allocate_first = λ p. (success, p + 1, p + 1);
  get_this_page = λ p q. (success, false, p);
  flush_all_pages = λ p. (ioerr_write, false, p);
  close_file = λ p. (true, p);
  init_keys = λ p n. true;
}

abbrev changed_file : IndexFile ℕ
changed_file = record {
  file_header = record two_leaves.header { root_page = some 5 };
  is_dirty = true;
  frame_page = two_leaves.header;
  frame_dirty = false;
  on_disk = two_leaves.header;
  is_open = true;
  files = 6;
}

open_handler-sync_example :
    ((close_handler files (sync files changed_file).1).on_disk ≡ changed_file.file_header)
    × ((open_handler files (close_handler files (sync files changed_file).1)).0 ≡ success)
    × ((open_handler files (close_handler files (sync files changed_file).1)).1.file_header
        ≡ changed_file.file_header)
open_handler-sync_example =
    open_handler-sync files changed_file ((λ h. cc), (λ h. refl)) refl (λ p. refl) (λ p q. refl)
      (λ p n. refl) (inr refl)

create_fills_header : (create files 4 none (some 7) changed_file).1.file_header ≡ record {
  root_page = none;
  internal_max_size = 510;
  leaf_max_size = 7;
  attr_length = 4;
  key_length = 12;
}
unfolding create calc_internal_page_capacity
create_fills_header = refl

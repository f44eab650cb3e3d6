-- ===== src/BplusTree/Scanner/Tests.antt =====
-- Scans of a tree of two leaves.
use miniob_basic.Base.{ℕ, ◌≡◌, refl, true, false, none, some, [], ◌∷◌, arith}
use miniob_basic.Rc.{success, record_eof, locked_need_wait}
use miniob_basic.LowerBound.{lower_bound, lower_bound_from}
use miniob_basic.BplusTree.Block.{item_at}
use miniob_basic.BplusTree.Key.{key_comparator}
use miniob_basic.BplusTree.Node.{leaf, lookup_leaf}
use miniob_basic.BplusTree.Tree.{
  Handler, BplusTree, ok, find_leaf, find_leaf_internal, find_leaf_from, get_page,
}
use miniob_basic.BplusTree.Tree.Insert.{key_at}
use miniob_basic.BplusTree.TwoLeaves.{handler, two_leaves, array_of, pool, compare}
use miniob_basic.BplusTree.Scanner.{
  BplusTreeScanner, next_entry, collect, next_from, get_entry, open_scanner, open_left, open_right,
}
use miniob_basic.BplusTree.Scanner.Fix.{fix_user_key}
use miniob_basic.BplusTree.Scanner.Retry.{next_entry-skips}
use miniob_basic.BplusTree.Scanner.Collect.{IsStart, collect-until_right}

-- At the second item, with 40 as the last key.
abbrev at_20 : BplusTreeScanner ℕ
at_20 = record {
  inited = true;
  current = some 2;
  right_key = some 40;
  iter_index = 1;
  first_emitted = false;
}

at_20-IsStart : IsStart two_leaves.nodes (some 40) at_20 (20, 2) ((30, 3) ∷ (40, 4) ∷ (50, 5) ∷ [])
at_20-IsStart = record {
  page = 2;
  node = _;
  leaves =
      record {
        parent = some 1;
        next_brother = none;
        block = record { size = 3; array = array_of (0, 0) ((30, 3) ∷ (40, 4) ∷ (50, 5) ∷ []) };
      }
      ∷ [];
  is_page = refl;
  at_page = refl;
  in_range = omega arith;
  is_chain = (3, refl, refl, omega arith, (refl, tt));
  is_right = refl;
  not_emitted = refl;
  is_rest = refl;
}

collect-until_right_example :
    (p : ℕ) × (collect handler 5 2 (λ q. true) at_20 two_leaves
      ≡ some (ok (record_eof, 2 ∷ 3 ∷ 4 ∷ []), record two_leaves { pages = p }))
collect-until_right_example =
    collect-until_right handler (λ s p. refl) (λ q. true) (λ q. refl) 5 0 at_20 two_leaves (some 40)
      (20, 2) ((30, 3) ∷ (40, 4) ∷ (50, 5) ∷ []) at_20-IsStart refl (omega arith)

abbrev behind_20 : BplusTreeScanner ℕ
behind_20 = record at_20 { first_emitted = true }

next_entry-skips_example :
    (s' : BplusTreeScanner ℕ) × (s'' : BplusTreeScanner ℕ) × (p : ℕ) × (next_entry handler 1
        (λ q. false)
        behind_20
        two_leaves
      ≡ some (ok (locked_need_wait, none, s'), record two_leaves { pages = p }))
    × (next_entry handler 1 (λ q. true) s' (record two_leaves { pages = p })
        ≡ some (ok (record_eof, none, s''), record two_leaves { pages = p }))
next_entry-skips_example =
    next_entry-skips handler (λ s p. refl) 0 (λ q. false) (λ q. true) behind_20 two_leaves 2 3 _ _
      refl refl refl refl refl refl refl (omega arith) refl

-- A tree of one leaf, with two entries of the attribute 7.
abbrev keyed : Handler (ℕ × ℕ) ℕ ℕ
keyed = record {
  key_comparator = key_comparator compare compare;
  zero_key = (0, 0);
  new_items = λ i. ((0, 0), 0);
  new_children = λ i. ((0, 0), 0);
  disk_buffer_pool = pool;
}

abbrev one_leaf : BplusTree (ℕ × ℕ) ℕ ℕ
one_leaf = record {
  header = record {
    root_page = some 1;
    internal_max_size = 3;
    leaf_max_size = 4;
    attr_length = 4;
    key_length = 12;
  };
  header_dirty = false;
  nodes = λ p. leaf record {
    parent = none;
    next_brother = none;
    block = record {
      size = 4;
      array = array_of ((0, 0), 0) (((5, 1), 1) ∷ ((7, 2), 2) ∷ ((7, 4), 4) ∷ ((9, 3), 3) ∷ []);
    };
  };
  pages = 2;
}

get_entry_of_7 :
    get_entry keyed compare 0 99 (λ u greater. ok (u, false)) 9 9 (λ q. true) 7 one_leaf
    ≡ some (ok (success, 2 ∷ 4 ∷ []), one_leaf)
unfolding get_entry open_scanner open_left open_right find_leaf find_leaf_internal get_page
    find_leaf_from lookup_leaf lower_bound lower_bound_from key_comparator key_at item_at collect
    next_entry next_from
get_entry_of_7 = refl

fix_short : fix_user_key 4 (65 ∷ 66 ∷ 0 ∷ []) 2 false ≡ some (65 ∷ 66 ∷ 255 ∷ 255 ∷ [], false)
unfolding fix_user_key
fix_short = refl

fix_long : fix_user_key 2 (65 ∷ 66 ∷ 67 ∷ 0 ∷ []) 3 true ≡ some (65 ∷ 67 ∷ [], true)
unfolding fix_user_key
fix_long = refl

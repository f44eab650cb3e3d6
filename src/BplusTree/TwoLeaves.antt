-- ===== src/BplusTree/TwoLeaves.antt =====
-- A tree of two leaves, for the tests.
use miniob_basic.Base.{
  ℕ, zero, suc, ◌+◌, false, none, some, List, [], ◌∷◌, arith, ltb, ◌==◌, if◌then◌else◌,
}
use miniob_basic.Base.Int.{ℤ}
use miniob_basic.Rc.{success}
use miniob_basic.LowerBound.{comparator}
use miniob_basic.BplusTree.Order.{IsOrder}
use miniob_basic.BplusTree.Node.{leaf, internal, IndexNode}
use miniob_basic.BplusTree.Tree.{Pool, Handler, BplusTree}

abbrev pub compare : ℕ → ℕ → ℤ
compare = comparator ltb

pub compare-IsOrder : IsOrder compare
compare-IsOrder = record {
  above_of_below = λ a b. ground arith;
  below_of_above = λ a b. ground arith;
  equal_sym = λ a b. ground arith;
  below_trans = λ a b c. ground arith;
  like = λ a b c. ground arith;
}

abbrev pub array_of {ℓ} : {A : Type ℓ} → A → List A → ℕ → A
array_of d [] i = d
array_of d (x ∷ xs) zero = x
array_of d (x ∷ xs) (suc i) = array_of d xs i

-- The next page that is free is the state of the pool.
abbrev pub pool : Pool ℕ
pool = record {
  get_page = λ s p. (success, s);
  allocate_page = λ s. (success, s, s + 1);
  dispose_page = λ s p. s;
}

abbrev pub handler : Handler ℕ ℕ ℕ
handler = record {
  key_comparator = compare;
  zero_key = 0;
  new_items = λ i. (0, 0);
  new_children = λ i. (0, 0);
  disk_buffer_pool = pool;
}

abbrev pub root_node : IndexNode ℕ ℕ
root_node = internal record {
  parent_page = none;
  children = record { size = 2; array = array_of (0, 0) ((0, 2) ∷ (30, 3) ∷ []) };
}

abbrev pub left_leaf : IndexNode ℕ ℕ
left_leaf = leaf record {
  parent = some 1;
  next_brother = some 3;
  block = record { size = 2; array = array_of (0, 0) ((10, 1) ∷ (20, 2) ∷ []) };
}

abbrev pub right_leaf : IndexNode ℕ ℕ
right_leaf = leaf record {
  parent = some 1;
  next_brother = none;
  block = record { size = 3; array = array_of (0, 0) ((30, 3) ∷ (40, 4) ∷ (50, 5) ∷ []) };
}

abbrev pub two_leaves : BplusTree ℕ ℕ ℕ
two_leaves = record {
  header = record {
    root_page = some 1;
    internal_max_size = 3;
    leaf_max_size = 4;
    attr_length = 4;
    key_length = 12;
  };
  header_dirty = false;
  nodes = λ p. if p == 1 then root_node else if p == 2 then left_leaf else right_leaf;
  pages = 4;
}

abbrev pub contents : List (ℕ × ℕ)
contents = (10, 1) ∷ (20, 2) ∷ (30, 3) ∷ (40, 4) ∷ (50, 5) ∷ []

-- ===== src/BplusTree/Node.antt =====
-- bplus_tree.cpp: IndexNodeHandler, LeafIndexNodeHandler and InternalIndexNodeHandler. A page holds a
-- leaf or an internal node, as its `is_leaf` says. A key is the value of an attribute with a record
-- identifier behind it; `cmp` is KeyComparator.
pub mod Lookup
use miniob_basic.Base.{
  ℕ, zero, suc, ◌+◌, ◌-◌, ◌*◌, ◌/◌, Bool, true, false, not, Option, none, some, ltb, leb, ◌==◌,
  if◌then◌else◌,
}
use miniob_basic.Base.Int.{ℤ}
use miniob_basic.Rc.{Run}
use miniob_basic.LowerBound.{below, equal, above, sign, lower_bound}
use miniob_basic.BplusTree.Array.{write}
use miniob_basic.BplusTree.Block.{Block, item_at, insert_at, remove_at}

pub data BplusTreeOperationType : Type 0 where
  read insert delete : BplusTreeOperationType

-- Without the type of the attribute, which decides on its comparison.
pub record IndexFileHeader : Type 0 where
  pub root_page : Option ℕ
  pub internal_max_size : ℕ
  pub leaf_max_size : ℕ
  pub attr_length : ℕ
  pub key_length : ℕ

-- `BP_PAGE_DATA_SIZE`, `HEADER_SIZE` of both kinds of node, and the sizes of RID and PageNum
abbrev pub page_data_size : ℕ
page_data_size = 8184

abbrev pub internal_header_size : ℕ
internal_header_size = 12

abbrev pub leaf_header_size : ℕ
leaf_header_size = 16

abbrev pub rid_size : ℕ
rid_size = 8

abbrev pub page_num_size : ℕ
page_num_size = 4

unfoldable pub calc_internal_page_capacity : ℕ → ℕ
calc_internal_page_capacity attr_length =
    (page_data_size - internal_header_size) / (attr_length + rid_size + page_num_size)

pub calc_leaf_page_capacity : ℕ → ℕ
calc_leaf_page_capacity attr_length =
    (page_data_size - leaf_header_size) / (attr_length + rid_size + rid_size)

pub record LeafIndexNode {ℓ κ} (K : Type ℓ) (R : Type κ) : Type (ℓ ⊔ κ) where
  pub parent : Option ℕ
  pub next_brother : Option ℕ
  pub block : Block (K × R)

pub record InternalIndexNode {ℓ} (K : Type ℓ) : Type ℓ where
  pub parent_page : Option ℕ
  pub children : Block (K × ℕ)

pub data IndexNode {ℓ κ} (K : Type ℓ) (R : Type κ) : Type (ℓ ⊔ κ) where
  leaf : LeafIndexNode K R → IndexNode K R
  internal : InternalIndexNode K → IndexNode K R

module _ {ℓ κ} {K : Type ℓ} {R : Type κ} where
  abbrev pub parent_page_num : IndexNode K R → Option ℕ
  parent_page_num (leaf n) = n.parent
  parent_page_num (internal n) = n.parent_page

  abbrev pub set_parent_page_num : Option ℕ → IndexNode K R → IndexNode K R
  set_parent_page_num page (leaf n) = leaf (record n { parent = page })
  set_parent_page_num page (internal n) = internal (record n { parent_page = page })

  abbrev pub size : IndexNode K R → ℕ
  size (leaf n) = n.block.size
  size (internal n) = n.children.size

  abbrev pub max_size : IndexFileHeader → IndexNode K R → ℕ
  max_size header (leaf n) = header.leaf_max_size
  max_size header (internal n) = header.internal_max_size

  abbrev pub min_size : IndexFileHeader → IndexNode K R → ℕ
  min_size header n = max_size header n - max_size header n / 2

  abbrev pub is_leaf : IndexNode K R → Bool
  is_leaf (leaf n) = true
  is_leaf (internal n) = false

  -- Whether a node stays as it is, but for its items, when one is put in or taken out.
  pub is_safe :
      IndexFileHeader → BplusTreeOperationType → (is_root_node : Bool) → IndexNode K R → Bool
  is_safe header read is_root_node n = true
  is_safe header insert is_root_node n = ltb (size n) (max_size header n)
  is_safe header delete true n = if is_leaf n then ltb 1 (size n) else ltb 2 (size n)
  is_safe header delete false n = ltb (min_size header n) (size n)

  -- `init_empty` leaves the bytes of the items as they are (`array`).
  abbrev pub empty_leaf : (ℕ → K × R) → LeafIndexNode K R
  empty_leaf array = record {
    parent = none;
    next_brother = none;
    block = record { size = 0; array = array };
  }

module _ {ℓ} {K : Type ℓ} (cmp : K → K → ℤ) where
  -- The place of a key among the items of a leaf, and whether it is there.
  unfoldable pub lookup_leaf {κ} : {R : Type κ} → Block (K × R) → K → ℕ × Bool
  lookup_leaf b key = lower_bound (λ item k. cmp item.0 k) b.array b.size key

  -- The number of items that are removed.
  unfoldable pub remove_key {κ} : {R : Type κ} → Block (K × R) → K → Run (ℕ × Block (K × R))
  remove_key b key =
      let (index, found) = lookup_leaf b key in
      if not found
      then some (0, b)
      else elim (remove_at b index) [ none ↦ none | some b' ↦ some (1, b') ]

  -- Behind the search of `lookup`.
  abbrev pub child_place : Block (K × ℕ) → K → ℕ × Bool → ℕ × ℕ × Bool
  child_place b key (place, found) =
      let ret = place + 1 in
      if leb b.size ret then (ret - 1, ret, found) else elim (sign (cmp key (b.array ret).0)) [
        | below ↦ (ret - 1, ret, found)
        | equal ↦ (ret, ret, found)
        | above ↦ (ret, ret, found)
      ]

  -- The child that a key belongs to, then `insert_position` and `found`. The key of the first item is
  -- not looked at.
  unfoldable pub lookup_internal : Block (K × ℕ) → K → ℕ × ℕ × Bool
  lookup_internal b key =
      if b.size == 0
      then (0, 1, false)
      else child_place b key
          (lower_bound (λ (item : K × ℕ) k. cmp item.0 k) (λ i. b.array (i + 1)) (b.size - 1) key)

  unfoldable pub insert_child : Block (K × ℕ) → K → ℕ → Block (K × ℕ)
  insert_child b key page = insert_at b ((lookup_internal b key).1) (key, page)

module _ {ℓ} {K : Type ℓ} where
  abbrev pub empty_internal : (ℕ → K × ℕ) → InternalIndexNode K
  empty_internal array = record {
    parent_page = none;
    children = record { size = 0; array = array };
  }

  -- `zero_key` is the key whose bytes are 0.
  unfoldable pub create_new_root : Block (K × ℕ) → (zero_key : K) → ℕ → K → ℕ → Block (K × ℕ)
  create_new_root b zero_key first_page key page = record {
    size = b.size + 2;
    array = write (write b.array 0 (zero_key, first_page)) 1 (key, page);
  }

  unfoldable pub set_key_at : Block (K × ℕ) → ℕ → K → Run (Block (K × ℕ))
  set_key_at b index key =
      if not (ltb index b.size)
      then none
      else some (record b { array = write b.array index (key, (b.array index).1) })

  -- The loop of `value_index`, from an index on.
  abbrev pub value_index_from : Block (K × ℕ) → ℕ → ℕ → ℕ → Option ℕ
  value_index_from b page i zero = none
  value_index_from b page i (suc n) =
      let rest = value_index_from b page (i + 1) n in if page == (b.array i).1 then some i else rest

  pub value_index : Block (K × ℕ) → ℕ → Option ℕ
  value_index b page = value_index_from b page 0 b.size

-- ===== src/BplusTree/Tree/Delete.antt =====
-- bplus_tree.cpp: how an entry goes out of the tree.
use miniob_basic.Base.{
  ℕ, zero, suc, ◌+◌, ◌-◌, Bool, true, false, none, some, ◌==◌, ltb, leb, if◌then◌else◌, ◌/◌,
}
use miniob_basic.Rc.{Rc, empty, record_not_exist, nomem}
use miniob_basic.BplusTree.Block.{Block}
use miniob_basic.BplusTree.Node.{
  leaf, internal, LeafIndexNode, parent_page_num, size, max_size, min_size, remove_key,
  lookup_internal,
}
use miniob_basic.BplusTree.Tree.{
  Handler, BplusTree, Op, ok, failed, ◌>>=◌, ◌>>◌, pure, fail, read_header, read_node, write_node,
  read_leaf, read_internal, set_parent, update_root_page_num, get_page, dispose_page, value_at,
  find_leaf,
}
use miniob_basic.BplusTree.Tree.Insert.{whatever, asserted}
use miniob_basic.BplusTree.Tree.Merge.{key_of, redistribute, coalesce}

-- `EMPTY` is given back as `RECORD_NOT_EXIST`.
abbrev pub not_exist_of_empty : Rc → Rc
not_exist_of_empty empty = record_not_exist
not_exist_of_empty rc = rc

abbrev pub with_code {ℓ κ} : {S : Type ℓ} {A : Type κ} → (Rc → Rc) → Op S A → Op S A
with_code f m t = elim (m t) [
  | none ↦ none
  | some (r, t') ↦ elim r [ ok a ↦ some (ok a, t') | failed rc ↦ some (failed (f rc), t') ]
]

module _ {ℓ κ μ} {K : Type ℓ} {R : Type κ} {P : Type μ} (h : Handler K R P) where
  -- The root is an empty leaf, or has one child.
  unfoldable pub adjust_root : ℕ → Op (BplusTree K R P) (Unit {0})
  adjust_root page = do
    n ← read_node page
    elim n [
      | leaf l ↦
          if ltb 0 l.block.size then pure tt else do update_root_page_num none; dispose_page h page
      | internal m ↦ do
        child ← asserted (value_at m 0)
        get_page h child
        set_parent child none
        update_root_page_num (some child)
        dispose_page h page
    ]

  -- With fuel for the pages from a leaf to the root.
  unfoldable pub coalesce_or_redistribute : ℕ → ℕ → Op (BplusTree K R P) (Unit {0})
  coalesce_or_redistribute zero page = λ t. none
  coalesce_or_redistribute (suc fuel) page = do
    n ← read_node page
    header ← read_header
    elim (leb (min_size header n) (size n)) [
      | true ↦ pure tt
      | false ↦ elim (parent_page_num n) [
        | none ↦ if ltb 1 (size n) then pure tt else whatever (adjust_root page)
        | some parent ↦ do
          get_page h parent
          m ← read_internal parent
          key ← asserted (key_of n (size n - 1))
          let index = (lookup_internal h.key_comparator m.children key).0
          child ← asserted (value_at m index)
          asserted (if child == page then some (tt {0}) else none)
          neighbor ← asserted (value_at m (if index == 0 then 1 else index - 1))
          get_page h neighbor
          other ← read_node neighbor
          elim (ltb (max_size header n) (size n + size other)) [
            | true ↦ redistribute h neighbor page parent index
            | false ↦ do coalesce h neighbor page parent index; coalesce_or_redistribute fuel parent
          ]
      ]
    ]

  -- Behind the removal in the leaf, which gives the number of items removed.
  abbrev pub delete_found :
      ℕ
      → ℕ
      → LeafIndexNode K R
      → Block (K × R)
      → (removed min_items : ℕ) → Op (BplusTree K R P) (Unit {0})
  delete_found fuel page n block zero min_items = fail record_not_exist
  delete_found fuel page n block (suc removed) min_items = do
    write_node page (leaf (record n { block = block }))
    if leb min_items block.size then pure tt else coalesce_or_redistribute fuel page

  unfoldable pub delete_entry_internal : ℕ → ℕ → K → Op (BplusTree K R P) (Unit {0})
  delete_entry_internal fuel page key = do
    n ← read_leaf page
    header ← read_header
    r ← asserted (remove_key h.key_comparator n.block key)
    delete_found fuel page n r.1 r.0 (header.leaf_max_size - header.leaf_max_size / 2)

  -- Behind the making of the key. `fuel` is more than the height of the tree.
  unfoldable pub delete_key : ℕ → K → Op (BplusTree K R P) (Unit {0})
  delete_key fuel key = do
    page ← with_code not_exist_of_empty (find_leaf h fuel key)
    delete_entry_internal fuel page key

module _ {ℓ κ μ} {U : Type ℓ} {R : Type κ} {P : Type μ} (h : Handler (U × R) R P) where
  -- `room` tells whether the memory pool of keys has an item.
  pub delete_entry : ℕ → (room : Bool) → U → R → Op (BplusTree (U × R) R P) (Unit {0})
  delete_entry fuel room user_key rid =
      if room then delete_key h fuel (user_key, rid) else fail nomem

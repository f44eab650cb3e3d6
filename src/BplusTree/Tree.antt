-- ===== src/BplusTree/Tree.antt =====
-- bplus_tree.cpp: BplusTreeHandler. The nodes lie in pages; a page that was got stays in memory until
-- the operation ends. Latches, which order the operations of several threads, and the marks of
-- frames that are dirty are left out.
pub mod Insert
pub mod Entry
pub mod Merge
pub mod Delete
use miniob_basic.Base.{
  ℕ, zero, suc, ◌+◌, ◌-◌, ◌/◌, ◌≡◌, refl, ap, Bool, true, false, not, Option, none, some, ltb, leb,
  ◌==◌, if◌then◌else◌,
}
use miniob_basic.Base.Int.{ℤ}
use miniob_basic.Rc.{Rc, Run, success, empty, record_duplicate_key, is_success}
use miniob_basic.LowerBound.{below, equal, above, sign}
use miniob_basic.BplusTree.Block.{Block, item_at, insert_at, move_half_to}
use miniob_basic.BplusTree.Node.{
  leaf, internal, IndexFileHeader, LeafIndexNode, InternalIndexNode, IndexNode, parent_page_num,
  set_parent_page_num, size, max_size, is_leaf, empty_leaf, empty_internal, lookup_leaf,
  lookup_internal, insert_child, create_new_root,
}

-- What the tree asks of the buffer pool (DiskBufferPool and LatchMemo): to have a page in memory, for
-- a new page, and to take a page back.
pub record Pool {ℓ} (P : Type ℓ) : Type ℓ where
  pub get_page : P → ℕ → Rc × P
  pub allocate_page : P → Rc × ℕ × P
  pub dispose_page : P → ℕ → P

-- What stays the same while a tree is used. A new page holds some bytes, read as items.
pub record Handler {ℓ κ μ} (K : Type ℓ) (R : Type κ) (P : Type μ) : Type (ℓ ⊔ κ ⊔ μ) where
  pub key_comparator : K → K → ℤ
  pub zero_key : K
  pub new_items : ℕ → K × R
  pub new_children : ℕ → K × ℕ
  pub disk_buffer_pool : Pool P

pub record BplusTree {ℓ κ μ} (K : Type ℓ) (R : Type κ) (P : Type μ) : Type (ℓ ⊔ κ ⊔ μ) where
  pub header : IndexFileHeader
  pub header_dirty : Bool
  pub nodes : ℕ → IndexNode K R
  pub pages : P

-- A result, or the code with which the operation gives up.
pub data Result {ℓ} (A : Type ℓ) : Type ℓ where
  ok : A → Result A
  failed : Rc → Result A

-- `none` is a run that an `assert` stops or that reads a node as one of the other kind.
abbrev pub Op {ℓ κ} : Type ℓ → Type κ → Type (ℓ ⊔ κ)
Op S A = S → Run (Result A × S)

infixr 5 ◌>>=◌ ◌>>◌
abbrev pub ◌>>=◌ {ℓ κ μ} : {S : Type ℓ} {A : Type κ} {B : Type μ} → Op S A → (A → Op S B) → Op S B
◌>>=◌ m f t = elim (m t) [
  | none ↦ none
  | some (r, t') ↦ elim r [ ok a ↦ f a t' | failed rc ↦ some (failed rc, t') ]
]

abbrev pub ◌>>◌ {ℓ κ} : {S : Type ℓ} {B : Type κ} → Op S (Unit {0}) → Op S B → Op S B
m >> k = m >>= λ u. k

abbrev pub pure {ℓ κ} : {S : Type ℓ} {A : Type κ} → A → Op S A
pure a t = some (ok a, t)

abbrev pub fail {ℓ κ} : {S : Type ℓ} {A : Type κ} → Rc → Op S A
fail rc t = some (failed rc, t)

pub >>=-of_ok {ℓ κ μ} :
    {S : Type ℓ} {A : Type κ} {B : Type μ} (m : Op S A) (f : A → Op S B) (t : S) (a : A) (t' : S)
    → m t ≡ some (ok a, t')
    → (m >>= f) t ≡ f a t'
>>=-of_ok m f t a t' e = rw (e, ◌>>=◌) refl

abbrev pub set_node {ℓ κ} :
    {K : Type ℓ} {R : Type κ} → (ℕ → IndexNode K R) → ℕ → IndexNode K R → ℕ → IndexNode K R
set_node nodes p n q = if q == p then n else nodes q

module _ {ℓ κ μ} {K : Type ℓ} {R : Type κ} {P : Type μ} where
  abbrev pub read_header : Op (BplusTree K R P) IndexFileHeader
  read_header t = some (ok t.header, t)

  abbrev pub read_node : ℕ → Op (BplusTree K R P) (IndexNode K R)
  read_node p t = some (ok (t.nodes p), t)

  abbrev pub write_node : ℕ → IndexNode K R → Op (BplusTree K R P) (Unit {0})
  write_node p n t = some (ok tt, record t { nodes = set_node t.nodes p n })

  -- LeafIndexNodeHandler and InternalIndexNodeHandler on a page.
  abbrev pub read_leaf : ℕ → Op (BplusTree K R P) (LeafIndexNode K R)
  read_leaf p t = elim (t.nodes p) [ leaf n ↦ some (ok n, t) | internal n ↦ none ]

  pub read_leaf-of_leaf :
      (p : ℕ) (t : BplusTree K R P) (n : LeafIndexNode K R)
      → t.nodes p ≡ leaf n
      → read_leaf p t ≡ some (ok n, t)
  read_leaf-of_leaf p t n e = ap (λ m. elim m [ leaf n ↦ some (ok n, t) | internal n ↦ none ]) e

  abbrev pub read_internal : ℕ → Op (BplusTree K R P) (InternalIndexNode K)
  read_internal p t = elim (t.nodes p) [ leaf n ↦ none | internal n ↦ some (ok n, t) ]

  abbrev pub set_parent : ℕ → Option ℕ → Op (BplusTree K R P) (Unit {0})
  set_parent p parent t =
      some (ok tt, record t { nodes = set_node t.nodes p (set_parent_page_num parent (t.nodes p)) })

  -- `update_root_page_num_locked`
  abbrev pub update_root_page_num : Option ℕ → Op (BplusTree K R P) (Unit {0})
  update_root_page_num root t =
      some (ok tt, record t { header = record t.header { root_page = root }; header_dirty = true })

  unfoldable pub get_page : Handler K R P → ℕ → Op (BplusTree K R P) (Unit {0})
  get_page h p t =
      let (rc, s) = h.disk_buffer_pool.get_page t.pages p in
      some (if is_success rc then ok tt else failed rc, record t { pages = s })

  unfoldable pub allocate_page : Handler K R P → Op (BplusTree K R P) ℕ
  allocate_page h t =
      let (rc, p, s) = h.disk_buffer_pool.allocate_page t.pages in
      some (if is_success rc then ok p else failed rc, record t { pages = s })

  unfoldable pub dispose_page : Handler K R P → ℕ → Op (BplusTree K R P) (Unit {0})
  dispose_page h p t = some (ok tt, record t { pages = h.disk_buffer_pool.dispose_page t.pages p })

unfoldable pub value_at {ℓ} : {K : Type ℓ} → InternalIndexNode K → ℕ → Run ℕ
value_at n index = elim (item_at n.children index) [ none ↦ none | some item ↦ some item.1 ]

-- The child that `find_leaf` goes to.
abbrev pub child_of_key {ℓ} : {K : Type ℓ} → (K → K → ℤ) → K → InternalIndexNode K → Run ℕ
child_of_key cmp key n = value_at n ((lookup_internal cmp n.children key).0)

module _ {ℓ κ μ} {K : Type ℓ} {R : Type κ} {P : Type μ} (h : Handler K R P) where
  unfoldable pub find_leaf_from : ℕ → (InternalIndexNode K → Run ℕ) → ℕ → Op (BplusTree K R P) ℕ
  find_leaf_from zero child_page_getter p t = none
  find_leaf_from (suc fuel) child_page_getter p t = elim (t.nodes p) [
    | leaf n ↦ some (ok p, t)
    | internal n ↦ elim (child_page_getter n) [
      | none ↦ none
      | some next_page ↦
          (get_page h next_page >>= λ u. find_leaf_from fuel child_page_getter next_page) t
    ]
  ]

  abbrev pub find_leaf_below : ℕ → (InternalIndexNode K → Run ℕ) → Option ℕ → Op (BplusTree K R P) ℕ
  find_leaf_below fuel child_page_getter none = fail empty
  find_leaf_below fuel child_page_getter (some root) =
      get_page h root >>= λ u. find_leaf_from fuel child_page_getter root

  -- With fuel for the pages from the root to a leaf.
  unfoldable pub find_leaf_internal : ℕ → (InternalIndexNode K → Run ℕ) → Op (BplusTree K R P) ℕ
  find_leaf_internal fuel child_page_getter t =
      find_leaf_below fuel child_page_getter t.header.root_page t

  unfoldable pub find_leaf : ℕ → K → Op (BplusTree K R P) ℕ
  find_leaf fuel key = find_leaf_internal fuel (child_of_key h.key_comparator key)

  pub left_most_page : ℕ → Op (BplusTree K R P) ℕ
  left_most_page fuel = find_leaf_internal fuel (λ n. value_at n 0)

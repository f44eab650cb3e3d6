-- ===== src/BplusTree/Subtree.antt =====
-- The shape of a tree in its pages: what a page and the pages below it hold, as one list of items.
pub mod Leaf
pub mod Find
pub mod Contents
pub mod Inserted
pub mod Erased
use miniob_basic.Base.{
  ℕ, zero, suc, ◌+◌, ◌-◌, ◌≤◌, ◌<◌, ◌≡◌, ◌≢◌, refl, sym, ap, ap₂, subst, ◌∙◌, Bool, true, false,
  List, [], ◌∷◌, ◌++◌, arith, append_assoc,
}
use miniob_basic.Base.Int.{ℤ}
use miniob_basic.LowerBound.{Sign, below, equal, above, sign}
use miniob_basic.LowerBound.Search.{Sign-cases}
use miniob_basic.BplusTree.Array.{slice}
use miniob_basic.BplusTree.Block.Laws.{items}
use miniob_basic.BplusTree.Order.{
  IsOrder, All, All-append, All-parts, All-imp, IsAscending, place, insert_sorted,
}
use miniob_basic.BplusTree.Node.{leaf, internal, LeafIndexNode, InternalIndexNode, IndexNode}
use miniob_basic.BplusTree.Node.Lookup.{child_for}

-- No page stands in both lists.
abbrev pub IsApart : List ℕ → List ℕ → Type 0
IsApart ps qs = All (λ p. All (λ q. p ≢ q) qs) ps

module _ {ℓ κ} {K : Type ℓ} {R : Type κ} (cmp : K → K → ℤ) where
  abbrev pub IsBelow : K → List (K × R) → Type 0
  IsBelow key xs = All (λ x. sign (cmp x.0 key) ≡ below) xs

  abbrev pub IsNotBelow : K → List (K × R) → Type 0
  IsNotBelow key xs = All (λ x. sign (cmp x.0 key) ≢ below) xs

  abbrev pub IsAbove : K → List (K × R) → Type 0
  IsAbove key xs = All (λ x. sign (cmp x.0 key) ≡ above) xs

  -- The children of a node from a page on, which the separators `ys` divide: their pages and items.
  abbrev pub IsForest :
      (ℕ → List ℕ → List (K × R) → Type (ℓ ⊔ κ))
      → ℕ
      → List (K × ℕ)
      → List ℕ
      → List (K × R)
      → Type (ℓ ⊔ κ)
  IsForest S page [] ps xs = S page ps xs
  IsForest S page (y ∷ ys) ps xs =
      (qs : List ℕ) × (rs : List ℕ) × (us : List (K × R)) × (vs : List (K × R)) × (ps ≡ qs ++ rs)
      × (xs ≡ us ++ vs)
      × IsApart qs rs
      × IsBelow y.0 us
      × IsNotBelow y.0 vs
      × S page qs us
      × IsForest S y.1 ys rs vs

  -- A page whose leaves are `depth` pages below it, the pages of the subtree, and its items in order.
  abbrev pub IsSubtree :
      (ℕ → IndexNode K R) → (depth : ℕ) → ℕ → List ℕ → List (K × R) → Type (ℓ ⊔ κ)
  IsSubtree nodes zero page ps xs =
      (n : LeafIndexNode K R) × (nodes page ≡ leaf n) × (items n.block ≡ xs) × (ps ≡ page ∷ [])
  IsSubtree nodes (suc depth) page ps xs =
      (n : InternalIndexNode K) × (qs : List ℕ) × (nodes page ≡ internal n)
      × (0 < n.children.size)
      × IsAscending cmp (slice n.children.array 1 (n.children.size - 1))
      × (ps ≡ page ∷ qs)
      × IsApart (page ∷ []) qs
      × IsForest (IsSubtree nodes depth) (n.children.array 0).1
          (slice n.children.array 1 (n.children.size - 1)) qs xs

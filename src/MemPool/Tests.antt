-- ===== src/MemPool/Tests.antt =====
-- A pool of two items, at the addresses 100 and 101, which is not extended.
use miniob_basic.Base.{ℕ, ◌≡◌, refl, true, false, none, some, [], ◌∷◌, arith}
use miniob_basic.LruCache.{erase_node}
use miniob_basic.LruCache.Seg.{has}
use miniob_basic.MemPool.{MemPoolSimple, init, alloc, free}
use miniob_basic.MemPool.Valid.{IsValid, IsAllocated, alloc-IsAllocated, free-IsReturned}

abbrev no_items : MemPoolSimple
no_items = record {
  pools = [];
  used = [];
  frees = [];
  size = 0;
  dynamic = true;
  item_num_per_pool = 0;
}

abbrev two_items : MemPoolSimple
two_items = record {
  pools = 100 ∷ [];
  used = [];
  frees = 100 ∷ 101 ∷ [];
  size = 2;
  dynamic = false;
  item_num_per_pool = 2;
}

init_two : init no_items false 1 2 (λ i. some 100) ≡ (true, two_items)
unfolding init
init_two = refl

apart_lem : (a : ℕ) → has a (100 ∷ []) ≡ true → has a (101 ∷ []) ≡ false
apart_lem a h = ground arith

two_items-IsValid : IsValid two_items
two_items-IsValid = record {
  used_once = tt;
  frees_once = (refl, (refl, tt));
  apart = λ a h. cc;
  counted = refl;
}

abbrev one_used : MemPoolSimple
one_used = record two_items { used = 100 ∷ []; frees = 101 ∷ [] }

one_used-IsValid : IsValid one_used
one_used-IsValid = record {
  used_once = (refl, tt);
  frees_once = (refl, tt);
  apart = apart_lem;
  counted = refl;
}

alloc-IsAllocated_example : IsAllocated one_used (alloc one_used none)
alloc-IsAllocated_example = alloc-IsAllocated one_used none refl one_used-IsValid

free-IsReturned_example :
    IsValid (free one_used 100)
    × ((free one_used 100).used ≡ erase_node 100 (100 ∷ []))
    × ((free one_used 100).dynamic ≡ false)
free-IsReturned_example = free-IsReturned one_used 100 refl one_used-IsValid

alloc_two : (alloc two_items none).0 ≡ some 100
unfolding alloc
alloc_two = refl

alloc_all : (alloc (record two_items { used = 100 ∷ 101 ∷ []; frees = [] }) none).0 ≡ none
unfolding alloc
alloc_all = refl

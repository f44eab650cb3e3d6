-- ===== src/BufferPool/FrameManager/Tests.antt =====
-- Two frames, and a page of the file 3.
use miniob_basic.Base.{ℕ, ◌≡◌, refl, none, some, [], ◌∷◌, if◌then◌else◌}
use miniob_basic.LruCache.Seg.{has}
use miniob_basic.LruCache.Entries.{erase_key}
use miniob_basic.BufferPool.FrameManager.{equal_to, BpFrameManager, alloc, free, find_list, pinned}
use miniob_basic.BufferPool.FrameManager.Valid.{IsValid}
use miniob_basic.BufferPool.FrameManager.Alloc.{Allocates, alloc-Allocates}
use miniob_basic.BufferPool.FrameManager.Free.{IsFreeable, free-IsFreed}
use miniob_basic.BufferPool.FrameManager.FindList.{find_list-fetched}
use miniob_basic.BufferPool.FrameManager.Examples.{
  page, two_frames, two_frames-IsValid, one_page, one_page-IsValid,
}

alloc-Allocates_example : Allocates two_frames [] (page 5) (alloc two_frames 3 5 700 none)
alloc-Allocates_example = alloc-Allocates two_frames [] 3 5 700 none refl two_frames-IsValid

one_page-IsFreeable : IsFreeable (one_page.store 100).latches
one_page-IsFreeable = record { one_pin = refl; no_writer = refl; no_reader = refl }

free-IsFreed_example :
    (m : BpFrameManager ℕ) × (free one_page 3 5 100 ≡ some m)
    × IsValid m (erase_key equal_to (page 5) ((page 5, 100) ∷ []))
free-IsFreed_example =
    free-IsFreed one_page ((page 5, 100) ∷ []) 3 5 100 one_page-IsValid refl one_page-IsFreeable

find_list-fetched_example :
    ((find_list one_page 3).0 ≡ 100 ∷ [])
    × ((a : ℕ)
        → (find_list one_page 3).1.store a
          ≡ (if has a (100 ∷ []) then pinned (one_page.store a) else one_page.store a))
find_list-fetched_example = find_list-fetched one_page ((page 5, 100) ∷ []) 3 one_page-IsValid

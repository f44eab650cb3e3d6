-- ===== src/BufferPool/Flush/Tests.antt =====
-- A file that takes every page.
use miniob_basic.Base.{ℕ, ◌≡◌, refl, true, some, List, [], ◌∷◌}
use miniob_basic.Base.Int.{pos}
use miniob_basic.Rc.{success}
use miniob_basic.BufferPool.FrameManager.{PageFrame}
use miniob_basic.BufferPool.FrameManager.Examples.{page, one_page, one_page-IsValid}
use miniob_basic.BufferPool.Flush.{File, flush_all_pages, flush_page_internal}
use miniob_basic.BufferPool.Flush.Pins.{flush_all_pages-pinned}

-- The pages that were written, the last one first.
abbrev all_written : File ℕ (List (PageFrame ℕ))
all_written = record { lseek = λ w o. (some o, w); writen = λ w f. (true, f ∷ w) }

flush_all_pages-pinned_example :
    ((flush_all_pages all_written one_page [] 3).1.store 100).latches.pin_count ≡ pos 2
flush_all_pages-pinned_example =
    flush_all_pages-pinned all_written one_page ((page 5, 100) ∷ []) [] 3 100 one_page-IsValid

flush_one : (flush_page_internal all_written [] (one_page.store 100)).0 ≡ success
unfolding flush_page_internal
flush_one = refl

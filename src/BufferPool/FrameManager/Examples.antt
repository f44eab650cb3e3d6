-- ===== src/BufferPool/FrameManager/Examples.antt =====
-- A manager of two frames, for pages of the file 3: empty, and with one page.
use miniob_basic.Base.{ℕ, ◌≡◌, refl, true, false, none, [], ◌∷◌, arith, ◌==◌, if◌then◌else◌}
use miniob_basic.Base.Int.{pos}
use miniob_basic.Mutex.{recursive_shared_mutex}
use miniob_basic.Frame.{Frame}
use miniob_basic.LruCache.{ListNode, lru_cache, put}
use miniob_basic.LruCache.Seg.{has}
use miniob_basic.LruCache.Put.{Refines-put}
use miniob_basic.BufferPool.FrameManager.{FrameId, equal_to, BpFrameManager}
use miniob_basic.BufferPool.FrameManager.Valid.{IsValid, equal_to-IsEquality}

abbrev pub page : ℕ → FrameId
page n = record { file_desc = 3; page_num = n }

abbrev pub no_nodes : ℕ → ListNode FrameId ℕ
no_nodes a = record { key = page 0; value = 0; prev = none; next = none }

abbrev pub unused : Frame
unused = record {
  dirty = false;
  pin_count = pos 0;
  mutex = recursive_shared_mutex;
  write_locker = 0;
  write_recursive_count = pos 0;
  read_lockers = [];
}

abbrev pub two_frames : BpFrameManager ℕ
two_frames = record {
  frames = lru_cache no_nodes;
  allocator = record {
    pools = 100 ∷ [];
    used = [];
    frees = 100 ∷ 101 ∷ [];
    size = 2;
    dynamic = false;
    item_num_per_pool = 2;
  };
  store = λ a. record { latches = unused; fd = 3; page = 0; content = 0 };
}

pub two_frames-IsValid : IsValid two_frames []
two_frames-IsValid = record {
  refines = record {
    list = [];
    holds = record {
      chain = tt;
      front = refl;
      tail = refl;
      distinct = tt;
      same = λ a. refl;
      once = tt;
    };
    keys = λ a b h g e. cc;
    shows = refl;
  };
  pool = record {
    used_once = tt;
    frees_once = (refl, (refl, tt));
    apart = λ a h. cc;
    counted = refl;
  };
  fixed = refl;
  once = tt;
  used = λ a. refl;
  unpinned = λ a h. refl;
}

-- Page 5 has the frame 100, with one pin.
abbrev pub one_page : BpFrameManager ℕ
one_page = record {
  frames = put equal_to (lru_cache no_nodes) (page 5) 100 700;
  allocator = record {
    pools = 100 ∷ [];
    used = 100 ∷ [];
    frees = 101 ∷ [];
    size = 2;
    dynamic = false;
    item_num_per_pool = 2;
  };
  store = λ a. record {
    latches = record unused { pin_count = if a == 100 then pos 1 else pos 0 };
    fd = 3;
    page = 5;
    content = 0;
  };
}

pub one_page-IsValid : IsValid one_page ((page 5, 100) ∷ [])
one_page-IsValid = record {
  refines =
      Refines-put equal_to equal_to-IsEquality (lru_cache no_nodes) [] (page 5) 100 700 refl
        two_frames-IsValid.refines;
  pool = record {
    used_once = (refl, tt);
    frees_once = (refl, tt);
    apart = λ a h. not_free a h;
    counted = refl;
  };
  fixed = refl;
  once = (refl, tt);
  used = λ a. refl;
  unpinned = λ a h. not_100 a h;
}
  where
    not_free : (a : ℕ) → has a (100 ∷ []) ≡ true → has a (101 ∷ []) ≡ false
    not_free a h = ground arith

    not_100 : (a : ℕ) → has a (100 ∷ []) ≡ false → (if a == 100 then pos 1 else pos 0) ≡ pos 0
    not_100 a h = ground arith

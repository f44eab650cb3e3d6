-- ===== src/BufferPool/FrameManager.antt =====
-- disk_buffer_pool.cpp, the part BPFrameManager, with FrameId and the members of Frame that name its
-- page: the frames in memory, in the order of their last use, over a pool of as many as there are.
-- A frame lies at an address of the pool. `D` is what a page holds behind its number.
pub mod Valid
pub mod Alloc
pub mod Free
pub mod FindList
mod Tests
pub mod Examples
use miniob_basic.Base.{
  ℕ, zero, suc, ◌+◌, Bool, true, false, not, ◌&&◌, ◌||◌, Option, none, some, List, [], ◌∷◌, ◌++◌,
  ◌==◌, if◌then◌else◌, length, leb,
}
use miniob_basic.Base.Int.{ℤ, pos, eq_ℤ}
use miniob_basic.Rc.{Rc, is_success, Run}
use miniob_basic.Frame.{Frame, Outcome, stopped, waits, done, pin, unpin, can_purge}
use miniob_basic.LruCache.{LruCache, count, destroy, foreach_from, put, remove}
use miniob_basic.LruCache
use miniob_basic.MemPool.{MemPoolSimple}
use miniob_basic.MemPool

pub record FrameId : Type 0 where
  pub file_desc : ℕ
  pub page_num : ℕ

abbrev pub equal_to : FrameId → FrameId → Bool
equal_to a b = (a.file_desc == b.file_desc) && (a.page_num == b.page_num)

pub record PageFrame {ℓ} (D : Type ℓ) : Type ℓ where
  pub latches : Frame
  pub fd : ℕ
  pub page : ℕ
  pub content : D

pub record BpFrameManager {ℓ} (D : Type ℓ) : Type ℓ where
  pub frames : LruCache FrameId ℕ
  pub allocator : MemPoolSimple
  pub store : ℕ → PageFrame D

module _ {ℓ} {D : Type ℓ} where
  abbrev pub write_frame : (ℕ → PageFrame D) → ℕ → PageFrame D → ℕ → PageFrame D
  write_frame store p f a = if a == p then f else store a

  abbrev pub pinned : PageFrame D → PageFrame D
  pinned f = record f { latches = pin f.latches }

  abbrev pub pin_frame : (ℕ → PageFrame D) → ℕ → ℕ → PageFrame D
  pin_frame store p = write_frame store p (pinned (store p))

  abbrev pub frame_id : PageFrame D → FrameId
  frame_id f = record { file_desc = f.fd; page_num = f.page }

  -- `unpin` never waits.
  abbrev pub unpinned : PageFrame D → Run (PageFrame D)
  unpinned f = elim (unpin f.latches) [
    | stopped ↦ none
    | waits ↦ none
    | done (n, l) ↦ some (record f { latches = l })
  ]

  -- With as many pools of `item_num` frames as are asked for: `true` where the code returns SUCCESS.
  pub init : BpFrameManager D → ℕ → (item_num : ℕ) → (ℕ → Option ℕ) → Bool × BpFrameManager D
  init m pool_num item_num new =
      let (ok, allocator) = MemPool.init m.allocator false pool_num item_num new in
      (ok, record m { allocator = allocator })

  pub get_internal : BpFrameManager D → FrameId → Option ℕ × BpFrameManager D
  get_internal m id =
      let (frame, frames) = LruCache.get equal_to m.frames id in
      let m' = record m { frames = frames } in
      elim frame [
        | none ↦ (none, m')
        | some p ↦ (some p, record m' { store = pin_frame m.store p })
      ]

  pub get : BpFrameManager D → ℕ → ℕ → Option ℕ × BpFrameManager D
  get m file_desc page_num = get_internal m record { file_desc = file_desc; page_num = page_num }

  -- A frame that the allocator has given, or not.
  pub set_up :
      BpFrameManager D → FrameId → ℕ → Option ℕ → MemPoolSimple → Run (Option ℕ × BpFrameManager D)
  set_up m id node none allocator = some (none, record m { allocator = allocator })
  set_up m id node (some p) allocator =
      if not (eq_ℤ (m.store p).latches.pin_count (pos 0))
      then none
      else some (
        some p,
        record {
          frames = put equal_to m.frames id p node;
          allocator = allocator;
          store = write_frame m.store p (pinned (record (m.store p) { page = id.page_num }));
        },
      )

  -- `node` is the address of a new node of `frames`, `new` what a pool to extend would get.
  pub alloc :
      BpFrameManager D → ℕ → ℕ → (node : ℕ) → (new : Option ℕ) → Run (Option ℕ × BpFrameManager D)
  alloc m file_desc page_num node new =
      let id : FrameId = record { file_desc = file_desc; page_num = page_num } in
      let (frame, m') = get_internal m id in
      elim frame [
        | some p ↦ some (some p, m')
        | none ↦
            let (p, allocator) = MemPool.alloc m'.allocator new in set_up m' id node p allocator
      ]

  pub free_internal : BpFrameManager D → FrameId → ℕ → Run (BpFrameManager D)
  free_internal m id frame =
      let (frame_source, frames) = LruCache.get equal_to m.frames id in
      elim frame_source [
        | none ↦ none
        | some p ↦
            if not ((frame == p) && eq_ℤ (m.store frame).latches.pin_count (pos 1))
            then none
            else elim (unpinned (m.store frame)) [
              | none ↦ none
              | some f ↦ some record {
                frames = remove equal_to frames id;
                allocator = MemPool.free m.allocator frame;
                store = write_frame m.store frame f;
              }
            ]
      ]

  pub free : BpFrameManager D → ℕ → ℕ → ℕ → Run (BpFrameManager D)
  free m file_desc page_num frame =
      free_internal m record { file_desc = file_desc; page_num = page_num } frame

  -- `fetcher` of `find_list`
  abbrev pub fetch :
      ℕ → (ℕ → PageFrame D) × List ℕ → FrameId → ℕ → Bool × ((ℕ → PageFrame D) × List ℕ)
  fetch file_desc (store, frames) id frame =
      if file_desc == id.file_desc
      then (true, (pin_frame store frame, frames ++ (frame ∷ [])))
      else (true, (store, frames))

  pub find_list : BpFrameManager D → ℕ → List ℕ × BpFrameManager D
  find_list m file_desc =
      let (store, frames) =
        foreach_from (suc (count m.frames)) (λ n. n.next) m.frames.nodes (fetch file_desc)
          m.frames.lru_front (m.store, []) in
      (frames, record m { store = store })

  -- `purge_finder` of `purge_frames`
  abbrev pub purge_finder :
      ℕ → (ℕ → PageFrame D) × List ℕ → FrameId → ℕ → Bool × ((ℕ → PageFrame D) × List ℕ)
  purge_finder count (store, found) id frame =
      if can_purge (store frame).latches
      then (
        not (leb count (length (found ++ (frame ∷ [])))),
        (pin_frame store frame, found ++ (frame ∷ [])),
      )
      else (true, (store, found))

  -- A frame that was not purged gives back the pin of `purge_finder`.
  abbrev pub give_back : BpFrameManager D → ℕ → PageFrame D → Run (BpFrameManager D)
  give_back m p f = elim (unpinned f) [
    | none ↦ none
    | some g ↦ some (record m { store = write_frame m.store p g })
  ]

  -- The loop of `purge_frames`: `purger` may change the frame, and what lies outside (`W`).
  abbrev pub purge_loop {κ} :
      {W : Type κ}
      → (W → PageFrame D → Rc × PageFrame D × W)
      → List ℕ
      → BpFrameManager D
      → W
      → ℕ
      → Run (ℕ × BpFrameManager D × W)
  purge_loop purger [] m w freed = some (freed, m, w)
  purge_loop purger (p ∷ ps) m w freed =
      let (rc, f, w') = purger w (m.store p) in
      let m' = record m { store = write_frame m.store p f } in
      let purged : Run (BpFrameManager D) =
        if is_success rc then free_internal m' (frame_id f) p else give_back m' p f in
      elim purged [
        | none ↦ none
        | some n ↦ purge_loop purger ps n w' (if is_success rc then freed + 1 else freed)
      ]

  pub purge_frames {κ} :
      {W : Type κ}
      → BpFrameManager D
      → ℕ
      → (W → PageFrame D → Rc × PageFrame D × W)
      → W
      → Run (ℕ × BpFrameManager D × W)
  purge_frames m n purger w =
      let limit = if n == 0 then 1 else n in
      let (store, found) =
        foreach_from (suc (count m.frames)) (λ x. x.prev) m.frames.nodes (purge_finder limit)
          m.frames.lru_tail (m.store, []) in
      purge_loop purger found (record m { store = store }) w 0

  pub cleanup : BpFrameManager D → Bool × BpFrameManager D
  cleanup m =
      if not (count m.frames == 0)
      then (false, m)
      else (true, record m { frames = destroy m.frames })

-- ===== src/BufferPool/FrameManager/Free.antt =====
-- A frame is given back.
use miniob_basic.Base.{
  ℕ, ◌≡◌, refl, sym, ap, ap₂, subst, ◌∙◌, true, not, ◌&&◌, none, some, List, [], ◌∷◌, ◌==◌, ==_iff,
  ==_ne, ℕ_discrete, if◌then◌else◌, arith,
}
use miniob_basic.Base.Int.{pos, eq_ℤ}
use miniob_basic.Rc.{Run}
use miniob_basic.Frame.{Frame, unpin, done, stopped, waits, is_empty}
use miniob_basic.LruCache.{LruCache, remove, erase_node}
use miniob_basic.LruCache
use miniob_basic.LruCache.Seg.{has, has_self}
use miniob_basic.LruCache.Holds.{has-erase_node}
use miniob_basic.LruCache.Entries.{lookup, erase_key}
use miniob_basic.LruCache.Refine.{Refines, Refines-remove}
use miniob_basic.MemPool
use miniob_basic.MemPool.Valid as Pool
use miniob_basic.BufferPool.FrameManager.{
  FrameId, equal_to, PageFrame, BpFrameManager, write_frame, unpinned, free, free_internal,
}
use miniob_basic.BufferPool.FrameManager.Valid.{
  IsValid, frames_of, equal_to-IsEquality, cache_get-some, lookup-IsTaken, IsTaken,
  write_frame-other, write_frame_self,
}

-- Only the caller holds the frame: one pin, and no latch.
pub record IsFreeable (f : Frame) : Type 0 where
  pub one_pin : f.pin_count ≡ pos 1
  pub no_writer : f.write_locker ≡ 0
  pub no_reader : f.read_lockers ≡ []

unpin-IsFreeable :
    (f : Frame) → IsFreeable f → unpin f ≡ done (pos 0, record f { pin_count = pos 0 })
unfolding unpin
unpin-IsFreeable f h =
    ap (λ c. unpin (record f { pin_count = c })) h.one_pin
    ∙ ap₂
        (λ w r.
          if not (w == 0)
          then stopped
          else if not (is_empty r)
          then stopped
          else done (pos 0, record f { pin_count = pos 0 }))
        h.no_writer h.no_reader

used_left :
    (a p : ℕ) (id : FrameId) (l : List (FrameId × ℕ)) (used : List ℕ)
    → has a used ≡ has a (frames_of l)
    → IsTaken id l p
    → (has a used && not (a == p)) ≡ has a (frames_of (erase_key equal_to id l))
used_left a p id l used u t = elim (ℕ_discrete a p) [
  | yes q ↦
      let z = ap (λ b. has b (frames_of (erase_key equal_to id l))) q ∙ t.apart.0 in
      ground (arith, z, (==_iff a p).1 q)
  | no q ↦ ground (arith, u, t.moved a, ==_ne a p q)
]

module _ {ℓ} {D : Type ℓ} where
  freed : BpFrameManager D → FrameId → ℕ → BpFrameManager D
  freed m id p = record {
    frames = remove equal_to (LruCache.get equal_to m.frames id).1 id;
    allocator = MemPool.free m.allocator p;
    store =
        write_frame m.store p
          (record (m.store p) { latches = record (m.store p).latches { pin_count = pos 0 } });
  }

  free_internal-freed :
      (m : BpFrameManager D) (l : List (FrameId × ℕ)) (id : FrameId) (p : ℕ)
      → IsValid m l
      → lookup equal_to id l ≡ some p
      → IsFreeable (m.store p).latches
      → free_internal m id p ≡ some (freed m id p)
  unfolding free_internal freed
  free_internal-freed m l id p v e h =
      let (i, j) = cache_get-some m.frames l id p v.refines e in
      let after : PageFrame D → BpFrameManager D = λ f. record {
        frames = remove equal_to (LruCache.get equal_to m.frames id).1 id;
        allocator = MemPool.free m.allocator p;
        store = write_frame m.store p f;
      } in
      let ended : Run (PageFrame D) → Run (BpFrameManager D) =
        λ o. elim o [ none ↦ none | some f ↦ some (after f) ] in
      ap
        (λ o. elim o as (λ x. Run (BpFrameManager D)) [
          | none ↦ none
          | some q ↦
              if not ((p == q) && eq_ℤ (m.store p).latches.pin_count (pos 1))
              then none
              else ended (unpinned (m.store p))
        ])
        i
      ∙ ap₂ (λ b c. if not (b && eq_ℤ c (pos 1)) then none else ended (unpinned (m.store p)))
          ((==_iff p p).1 refl) h.one_pin
      ∙ ap
          (λ o. ended (elim o as (λ x. Run (PageFrame D)) [
            | stopped ↦ none
            | waits ↦ none
            | done (n, f) ↦ some (record (m.store p) { latches = f })
          ]))
          (unpin-IsFreeable (m.store p).latches h)

  freed-IsValid :
      (m : BpFrameManager D) (l : List (FrameId × ℕ)) (id : FrameId) (p : ℕ)
      → IsValid m l
      → lookup equal_to id l ≡ some p
      → IsValid (freed m id p) (erase_key equal_to id l)
  unfolding freed
  freed-IsValid m l id p v e =
      let (i, j) = cache_get-some m.frames l id p v.refines e in
      let t = lookup-IsTaken id l p e v.once in
      let is_used : has p m.allocator.used ≡ true =
        v.used p ∙ sym (t.moved p) ∙ has_self p (frames_of (erase_key equal_to id l)) in
      let (w, u, d) = Pool.free-IsReturned m.allocator p is_used v.pool in
      let front : erase_key equal_to id ((id, p) ∷ erase_key equal_to id l)
          ≡ erase_key equal_to id l =
        rw (equal_to-IsEquality.same id) refl in
      let c' = (LruCache.get equal_to m.frames id).1 in
      record {
        refines = subst (Refines (remove equal_to c' id)) front (
            Refines-remove equal_to equal_to-IsEquality c' ((id, p) ∷ erase_key equal_to id l) id
              j);
        pool = w;
        fixed = d ∙ v.fixed;
        once = t.apart.1;
        used = λ a.
            ap (has a) u
            ∙ has-erase_node a p m.allocator.used v.pool.used_once
            ∙ used_left a p id l m.allocator.used (v.used a) t;
        unpinned = λ a h. elim (ℕ_discrete a p) [
          | yes q ↦
              ap (λ b. ((freed m id p).store b).latches.pin_count) q
              ∙ ap (λ g. g.latches.pin_count)
                  (write_frame_self m.store p (record (m.store p) {
                    latches = record (m.store p).latches { pin_count = pos 0 };
                  }))
          | no q ↦
              ap (λ g. g.latches.pin_count)
                (write_frame-other m.store p a
                  (record (m.store p) {
                    latches = record (m.store p).latches { pin_count = pos 0 };
                  })
                  q)
              ∙ v.unpinned a (sym (t.moved a) ∙ ground (arith, ==_ne a p q, h))
        ];
      }

  -- On a valid manager, the frame of a page in memory that has one pin, and no latch, goes back to the
  -- pool without a pin, and the page is no longer in memory; the manager stays valid.
  pub free-IsFreed :
      (m : BpFrameManager D) (l : List (FrameId × ℕ)) (file_desc page_num p : ℕ)
      → IsValid m l
      → lookup equal_to record { file_desc = file_desc; page_num = page_num } l ≡ some p
      → IsFreeable (m.store p).latches
      → (m' : BpFrameManager D) × (free m file_desc page_num p ≡ some m')
        × IsValid m' (erase_key equal_to record { file_desc = file_desc; page_num = page_num } l)
  unfolding free
  free-IsFreed m l file_desc page_num p v e h =
      let id : FrameId = record { file_desc = file_desc; page_num = page_num } in
      (freed m id p, free_internal-freed m l id p v e h, freed-IsValid m l id p v e)

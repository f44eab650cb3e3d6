-- ===== src/BufferPool/FrameManager/Alloc.antt =====
-- A page gets the frame that it has, or one that no page has.
use miniob_basic.Base.{
  ℕ, ◌≡◌, ◌≢◌, refl, sym, ap, ap₂, subst, ◌∙◌, false, not, ◌||◌, Option, none, some, List, ◌∷◌,
  ◌==◌, if◌then◌else◌, length, inl, inr, ◌⊎◌, Option-cases,
}
use miniob_basic.Base.Int.{pos, eq_ℤ, inc}
use miniob_basic.Rc.{Run}
use miniob_basic.Frame.{pin}
use miniob_basic.LruCache.{put}
use miniob_basic.LruCache.Seg.{has, has-ne, has-rest}
use miniob_basic.LruCache.Entries.{lookup, erase_key}
use miniob_basic.LruCache.Refine.{Refines}
use miniob_basic.LruCache.Put.{Refines-put}
use miniob_basic.MemPool.{MemPoolSimple}
use miniob_basic.MemPool
use miniob_basic.MemPool.Valid as Pool
use miniob_basic.BufferPool.FrameManager.{
  FrameId, equal_to, PageFrame, BpFrameManager, pin_frame, write_frame, pinned, alloc, set_up,
}
use miniob_basic.BufferPool.FrameManager.Valid.{
  IsValid, frames_of, equal_to-IsEquality, get_internal-none, get_internal-some, used_again,
  write_frame-other, write_frame_self, lookup-erased,
}

module _ {ℓ} {D : Type ℓ} where
  -- The page was in memory: its frame has one pin more.
  pub record IsFound (m : BpFrameManager D) (l : List (FrameId × ℕ)) (id : FrameId)
      (r : Run (Option ℕ × BpFrameManager D)) : Type ℓ where
    pub frame : ℕ
    pub after : BpFrameManager D
    pub answers : r ≡ some (some frame, after)
    pub in_memory : lookup equal_to id l ≡ some frame
    pub valid : IsValid after ((id, frame) ∷ erase_key equal_to id l)
    pub store_pinned : after.store ≡ pin_frame m.store frame

  -- Every frame is used, so that there is none for the page; nothing is changed.
  pub record IsFull (m : BpFrameManager D) (l : List (FrameId × ℕ)) (id : FrameId)
      (r : Run (Option ℕ × BpFrameManager D)) : Type ℓ where
    pub answers : r ≡ some (none, m)
    pub not_in_memory : lookup equal_to id l ≡ none
    pub all_used : length m.allocator.used ≡ m.allocator.size

  -- A frame that no page had, with the number of the page and one pin.
  pub record IsNew (m : BpFrameManager D) (l : List (FrameId × ℕ)) (id : FrameId)
      (r : Run (Option ℕ × BpFrameManager D)) : Type ℓ where
    pub frame : ℕ
    pub after : BpFrameManager D
    pub answers : r ≡ some (some frame, after)
    pub not_in_memory : lookup equal_to id l ≡ none
    pub no_page : has frame (frames_of l) ≡ false
    pub valid : IsValid after ((id, frame) ∷ l)
    pub one_pin : (after.store frame).latches.pin_count ≡ pos 1
    pub its_page : (after.store frame).page ≡ id.page_num
    pub others : (a : ℕ) → a ≢ frame → after.store a ≡ m.store a

  set_up-IsNew :
      (m : BpFrameManager D) (l : List (FrameId × ℕ)) (id : FrameId) (node p : ℕ)
      (pool : MemPoolSimple)
      → has node m.frames.searcher ≡ false
      → IsValid m l
      → lookup equal_to id l ≡ none
      → has p m.allocator.used ≡ false
      → pool.used ≡ p ∷ m.allocator.used
      → pool.dynamic ≡ false
      → Pool.IsValid pool
      → IsNew m l id (set_up m id node (some p) pool)
  unfolding set_up pin
  set_up-IsNew m l id node p pool fresh v e n u d w =
      let no_page : has p (frames_of l) ≡ false = sym (v.used p) ∙ n in
      let f : PageFrame D = record (m.store p) { page = id.page_num } in
      let self = write_frame_self m.store p (pinned f) in
      let after : BpFrameManager D = record {
        frames = put equal_to m.frames id p node;
        allocator = pool;
        store = write_frame m.store p (pinned f);
      } in
      record {
        frame = p;
        after = after;
        answers =
            ap (λ c. if not (eq_ℤ c (pos 0)) then none else some (some p, after))
              (v.unpinned p no_page);
        not_in_memory = e;
        no_page = no_page;
        valid = record {
          refines =
              subst (λ k. Refines after.frames ((id, p) ∷ k)) (lookup-erased id l e)
                (Refines-put equal_to equal_to-IsEquality m.frames l id p node fresh v.refines);
          pool = w;
          fixed = d;
          once = (no_page, v.once);
          used = λ a. ap (has a) u ∙ ap (◌||◌ (a == p)) (v.used a);
          unpinned = λ a h.
              ap (λ g. g.latches.pin_count)
                (write_frame-other m.store p a (pinned f) (has-ne a p (frames_of l) h))
              ∙ v.unpinned a (has-rest a p (frames_of l) h);
        };
        one_pin = ap (λ g. g.latches.pin_count) self ∙ ap inc (v.unpinned p no_page);
        its_page = ap (λ g. g.page) self;
        others = λ a q. write_frame-other m.store p a (pinned f) q;
      }

  abbrev pub Allocates :
      BpFrameManager D → List (FrameId × ℕ) → FrameId → Run (Option ℕ × BpFrameManager D) → Type ℓ
  Allocates m l id r = IsFound m l id r ⊎ (IsFull m l id r ⊎ IsNew m l id r)

  abbrev allocated :
      Option ℕ × BpFrameManager D → FrameId → ℕ → Option ℕ → Run (Option ℕ × BpFrameManager D)
  allocated g id node new = elim (g.0) [
    | some p ↦ some (some p, g.1)
    | none ↦
        set_up (g.1) id node ((MemPool.alloc (g.1).allocator new).0)
          ((MemPool.alloc (g.1).allocator new).1)
  ]

  set_up-Allocates :
      (m : BpFrameManager D) (l : List (FrameId × ℕ)) (id : FrameId) (node : ℕ)
      (r : Option ℕ × MemPoolSimple)
      → has node m.frames.searcher ≡ false
      → IsValid m l
      → lookup equal_to id l ≡ none
      → Pool.IsAllocated m.allocator r
      → IsFull m l id (set_up m id node (r.0) (r.1)) ⊎ IsNew m l id (set_up m id node (r.0) (r.1))
  unfolding set_up
  set_up-Allocates m l id node r fresh v e (inl (i, j, k)) =
      inl
        record { answers = ap₂ (λ o a. set_up m id node o a) i j; not_in_memory = e; all_used = k }
  set_up-Allocates m l id node r fresh v e (inr (b, i, n, u, d, w)) = inr (
      subst (λ o. IsNew m l id (set_up m id node o (r.1))) (sym i)
        (set_up-IsNew m l id node b (r.1) fresh v e n u d w))

  -- On a valid manager and with a new node for the cache, `alloc` answers the frame of the page,
  -- if that is in memory, with one pin more; it answers nothing and changes nothing, when it is not
  -- and all frames are used; and otherwise it answers a frame that no page had, with one pin. The
  -- manager stays valid, with the page in front.
  pub alloc-Allocates :
      (m : BpFrameManager D) (l : List (FrameId × ℕ)) (file_desc page_num node : ℕ) (new : Option ℕ)
      → has node m.frames.searcher ≡ false
      → IsValid m l
      → Allocates m l
          record { file_desc = file_desc; page_num = page_num }
          (alloc m file_desc page_num node new)
  unfolding alloc
  alloc-Allocates m l file_desc page_num node new fresh v =
      let id : FrameId = record { file_desc = file_desc; page_num = page_num } in
      elim (Option-cases (lookup equal_to id l)) [
        | inl e ↦
            subst (λ g. Allocates m l id (allocated g id node new))
              (sym (get_internal-none m l id v e))
              (inr (
                set_up-Allocates m l id node (MemPool.alloc m.allocator new) fresh v e
                  (Pool.alloc-IsAllocated m.allocator new v.fixed v.pool)))
        | inr (p, e) ↦
            let (i, w) = get_internal-some m l id p v e in
            subst (λ g. Allocates m l id (allocated g id node new)) (sym i)
              (inl record {
                frame = p;
                after = used_again m id p;
                answers = refl;
                in_memory = e;
                valid = w;
                store_pinned = refl;
              })
      ]

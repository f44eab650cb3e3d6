-- ===== src/BufferPool/FrameManager/Valid.antt =====
-- The frames in memory are the used items of the pool, one for each page.
use miniob_basic.Base.{
  ℕ, ◌≡◌, ◌≢◌, refl, sym, ap, ap₂, subst, ◌∙◌, false, ◌||◌, Option, none, some, List, [], ◌∷◌, ◌==◌,
  ==_iff, ==_ne, arith, Bool-cases, inl, inr,
}
use miniob_basic.Base.Int.{pos}
use miniob_basic.LruCache.{LruCache, erase_node}
use miniob_basic.LruCache
use miniob_basic.LruCache.Seg.{has, Distinct, has-rest, has-ne}
use miniob_basic.LruCache.Entries.{IsEquality, lookup, erase_key}
use miniob_basic.LruCache.Refine.{Refines, Refines-get, get-absent, to_front-some}
use miniob_basic.MemPool.Valid as Pool
use miniob_basic.BufferPool.FrameManager.{
  FrameId, equal_to, PageFrame, BpFrameManager, pin_frame, write_frame, pinned, get_internal,
}

pub equal_to-IsEquality : IsEquality equal_to
equal_to-IsEquality = record {
  equal = λ a b h. same_id a b (ground arith) (ground arith);
  same = λ a.
      ground
        (arith, (==_iff a.file_desc a.file_desc).1 refl, (==_iff a.page_num a.page_num).1 refl);
}
  where
    same_id : (a b : FrameId) → a.file_desc ≡ b.file_desc → a.page_num ≡ b.page_num → a ≡ b
    same_id a b e f = ap₂ (λ x y. record { file_desc = x; page_num = y }) e f

-- The frames of a list of entries.
abbrev pub frames_of : List (FrameId × ℕ) → List ℕ
frames_of [] = []
frames_of ((id, p) ∷ l) = p ∷ frames_of l

-- `l` has the pages in memory and their frames, the one used last first.
pub record IsValid {ℓ} {D : Type ℓ} (m : BpFrameManager D) (l : List (FrameId × ℕ)) : Type ℓ where
  pub refines : Refines m.frames l
  pub pool : Pool.IsValid m.allocator
  pub fixed : m.allocator.dynamic ≡ false
  pub once : Distinct (frames_of l)
  pub used : (a : ℕ) → has a m.allocator.used ≡ has a (frames_of l)
  pub unpinned : (a : ℕ) → has a (frames_of l) ≡ false → (m.store a).latches.pin_count ≡ pos 0

-- The frame of an entry that is taken out, and the frames that are left.
pub record IsTaken (id : FrameId) (l : List (FrameId × ℕ)) (p : ℕ) : Type 0 where
  pub moved : (a : ℕ) → has a (p ∷ frames_of (erase_key equal_to id l)) ≡ has a (frames_of l)
  pub apart : Distinct (p ∷ frames_of (erase_key equal_to id l))

pub lookup-IsTaken :
    (id : FrameId) (l : List (FrameId × ℕ)) (p : ℕ)
    → lookup equal_to id l ≡ some p
    → Distinct (frames_of l)
    → IsTaken id l p
lookup-IsTaken id [] p e d = cc
lookup-IsTaken id ((k, q) ∷ l) p e d = elim (Bool-cases (equal_to k id)) [
  | inl h ↦
      let f : q ≡ p = cc (rw h at e) in
      let t : erase_key equal_to id ((k, q) ∷ l) ≡ l = rw h refl in
      record {
        moved = λ a.
            ap (λ x. has a (p ∷ frames_of x)) t ∙ ap (λ x. (a == x) || has a (frames_of l)) (sym f);
        apart =
            subst (λ x. Distinct (p ∷ frames_of x)) (sym t)
              (subst (λ x. Distinct (x ∷ frames_of l)) f d);
      }
  | inr h ↦
      let v = lookup-IsTaken id l p (rw h at e) (d.1) in
      let t : erase_key equal_to id ((k, q) ∷ l) ≡ (k, q) ∷ erase_key equal_to id l = rw h refl in
      let q_l : has q (p ∷ frames_of (erase_key equal_to id l)) ≡ false = v.moved q ∙ d.0 in
      record {
        moved = λ a. ap (λ x. has a (p ∷ frames_of x)) t ∙ ground (arith, v.moved a);
        apart =
            subst (λ x. Distinct (p ∷ frames_of x)) (sym t)
              (
                ground (arith, v.apart.0, q_l),
                (has-rest q p (frames_of (erase_key equal_to id l)) q_l, v.apart.1),
              );
      }
]

pub lookup-erased :
    (id : FrameId) (l : List (FrameId × ℕ))
    → lookup equal_to id l ≡ none
    → erase_key equal_to id l ≡ l
lookup-erased id [] e = refl
lookup-erased id ((k, q) ∷ l) e = elim (Bool-cases (equal_to k id)) [
  | inl h ↦ cc (rw h at e)
  | inr h ↦ rw h (ap (◌∷◌ (k, q)) (lookup-erased id l (rw h at e)))
]

pub cache_get-some :
    (c : LruCache FrameId ℕ) (l : List (FrameId × ℕ)) (id : FrameId) (p : ℕ)
    → Refines c l
    → lookup equal_to id l ≡ some p
    → ((LruCache.get equal_to c id).0 ≡ some p)
      × Refines (LruCache.get equal_to c id).1 ((id, p) ∷ erase_key equal_to id l)
cache_get-some c l id p r e =
    let (i, j) = Refines-get equal_to equal_to-IsEquality c l id r in
    (
      i ∙ e,
      subst (Refines (LruCache.get equal_to c id).1)
          (to_front-some equal_to equal_to-IsEquality id l p e) j,
    )

module _ {ℓ} {D : Type ℓ} where
  pub write_frame-other :
      (store : ℕ → PageFrame D) (p a : ℕ) (f : PageFrame D)
      → a ≢ p
      → write_frame store p f a ≡ store a
  write_frame-other store p a f n = rw (==_ne a p n, write_frame) refl

  pub write_frame_self :
      (store : ℕ → PageFrame D) (p : ℕ) (f : PageFrame D) → write_frame store p f p ≡ f
  write_frame_self store p f = rw ((==_iff p p).1 refl, write_frame) refl

  -- The manager behind the search of the cache.
  abbrev pub searched : BpFrameManager D → FrameId → BpFrameManager D
  searched m id = record m { frames = (LruCache.get equal_to m.frames id).1 }

  pub get_internal-none :
      (m : BpFrameManager D) (l : List (FrameId × ℕ)) (id : FrameId)
      → IsValid m l
      → lookup equal_to id l ≡ none
      → get_internal m id ≡ (none, m)
  unfolding get_internal
  get_internal-none m l id v e =
      ap
        (λ g. elim (g.0) as (λ x. Option ℕ × BpFrameManager D) [
          | none ↦ (none, record m { frames = g.1 })
          | some q ↦ (some q, record m { frames = g.1; store = pin_frame m.store q })
        ])
        (get-absent equal_to equal_to-IsEquality m.frames l id v.refines e)

  -- A frame that is used again: its entry is in front, and it has one pin more.
  abbrev pub used_again : BpFrameManager D → FrameId → ℕ → BpFrameManager D
  used_again m id p = record (searched m id) { store = pin_frame m.store p }

  pub get_internal-some :
      (m : BpFrameManager D) (l : List (FrameId × ℕ)) (id : FrameId) (p : ℕ)
      → IsValid m l
      → lookup equal_to id l ≡ some p
      → (get_internal m id ≡ (some p, used_again m id p))
        × IsValid (used_again m id p) ((id, p) ∷ erase_key equal_to id l)
  unfolding get_internal
  get_internal-some m l id p v e =
      let (i, j) = cache_get-some m.frames l id p v.refines e in
      let t = lookup-IsTaken id l p e v.once in
      (
        ap
            (λ o. elim o as (λ x. Option ℕ × BpFrameManager D) [
              | none ↦ (none, searched m id)
              | some q ↦ (some q, used_again m id q)
            ])
            i,
        record {
          refines = j;
          pool = v.pool;
          fixed = v.fixed;
          once = t.apart;
          used = λ a. v.used a ∙ sym (t.moved a);
          unpinned = λ a h.
              ap (λ f. f.latches.pin_count)
                (write_frame-other m.store p a (pinned (m.store p))
                  (has-ne a p (frames_of (erase_key equal_to id l)) h))
              ∙ v.unpinned a (sym (t.moved a) ∙ h);
        },
      )

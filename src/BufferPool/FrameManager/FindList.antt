-- ===== src/BufferPool/FrameManager/FindList.antt =====
-- The frames of a file are found in the order of their last use, and each gets a pin.
use miniob_basic.Base.{
  ℕ, suc, ◌≤◌, ◌<◌, ◌≡◌, refl, sym, ap, ◌∙◌, Bool, true, false, List, [], ◌∷◌, ◌++◌, ◌==◌, ==_iff,
  ==_ne, ℕ_discrete, if◌then◌else◌, arith, length, Bool-cases, inl, inr, append_assoc, append-nil,
}
use miniob_basic.LruCache.{LruCache, ListNode, erase_node, count}
use miniob_basic.LruCache.Seg.{has, Distinct, has_self}
use miniob_basic.LruCache.Holds.{has-erase_node, Distinct-erase_node}
use miniob_basic.LruCache.Entries.{entries}
use miniob_basic.LruCache.Refine.{Refines}
use miniob_basic.LruCache.Foreach.{walk, foreach_from-front}
use miniob_basic.MemPool.Valid.{length-erase_node}
use miniob_basic.BufferPool.FrameManager.{
  FrameId, PageFrame, BpFrameManager, pinned, pin_frame, fetch, find_list,
}
use miniob_basic.BufferPool.FrameManager.Valid.{IsValid, frames_of}

length_le :
    (xs ys : List ℕ)
    → Distinct xs
    → Distinct ys
    → ((a : ℕ) → has a xs ≡ true → has a ys ≡ true)
    → length xs ≤ length ys
length_le [] ys d e i = omega arith
length_le (x ∷ xs) ys d e i =
    let h : has x ys ≡ true = i x (has_self x xs) in
    let rest = length_le xs (erase_node x ys) (d.1) (Distinct-erase_node x ys e) (λ a g.
      has-erase_node a x ys e
      ∙ ground (arith, i a (ground arith), ==_ne a x (λ q. cc (ap (λ b. has b xs) q, d.0)))) in
    omega (arith, length-erase_node x ys h, rest)

length-entries {ℓ} :
    {K V : Type ℓ} (nodes : ℕ → ListNode K V) (xs : List ℕ) → length (entries nodes xs) ≡ length xs
length-entries nodes [] = refl
length-entries nodes (x ∷ xs) = ap suc (length-entries nodes xs)

-- The hash set has a node for every entry.
length-count {ℓ} :
    {K V : Type ℓ} (c : LruCache K V) (l : List (K × V)) → Refines c l → length l < suc (count c)
unfolding count
length-count c l r =
    let e : length l ≡ length r.list = ap length (sym r.shows) ∙ length-entries c.nodes r.list in
    let le =
      length_le r.list c.searcher r.holds.distinct r.holds.once (λ a h. r.holds.same a ∙ h) in
    omega (arith, e, le)

-- The frames of the pages of a file.
abbrev pub file_frames : ℕ → List (FrameId × ℕ) → List ℕ
file_frames file_desc [] = []
file_frames file_desc ((id, p) ∷ l) =
    if file_desc == id.file_desc then p ∷ file_frames file_desc l else file_frames file_desc l

not_in_file :
    (a file_desc : ℕ) (l : List (FrameId × ℕ))
    → has a (frames_of l) ≡ false
    → has a (file_frames file_desc l) ≡ false
not_in_file a file_desc [] h = refl
not_in_file a file_desc ((id, p) ∷ l) h =
    let rest = not_in_file a file_desc l (ground arith) in
    elim (Bool-cases (file_desc == id.file_desc)) [
      | inl e ↦ rw e (ground arith)
      | inr e ↦ rw e rest
    ]

module _ {ℓ} {D : Type ℓ} where
  -- What `fetcher` makes of the frames and of the list over all entries.
  walk-fetch :
      (file_desc : ℕ) (l : List (FrameId × ℕ)) (s : ℕ → PageFrame D) (acc : List ℕ)
      → Distinct (frames_of l)
      → ((walk (fetch file_desc) l (s, acc)).1 ≡ acc ++ file_frames file_desc l)
        × ((a : ℕ)
            → (walk (fetch file_desc) l (s, acc)).0 a
              ≡ (if has a (file_frames file_desc l) then pinned (s a) else s a))
  walk-fetch file_desc [] s acc d = (sym (append-nil acc), λ a. refl)
  walk-fetch file_desc ((id, p) ∷ l) s acc d = elim (Bool-cases (file_desc == id.file_desc)) [
    | inl e ↦
        let (i, j) = walk-fetch file_desc l (pin_frame s p) (acc ++ (p ∷ [])) (d.1) in
        let t : file_frames file_desc ((id, p) ∷ l) ≡ p ∷ file_frames file_desc l = rw e refl in
        let w = walk-step id p l (ap (λ b. fetched b id p) e) in
        (
          ap (λ g. g.1) w
              ∙ i
              ∙ append_assoc acc (p ∷ []) (file_frames file_desc l)
              ∙ ap (λ x. acc ++ x) (sym t),
          λ a.
              ap (λ g. g.0 a) w
              ∙ j a
              ∙ chosen a p (file_frames file_desc l) (not_in_file p file_desc l (d.0))
              ∙ ap (λ x. if has a x then pinned (s a) else s a) (sym t),
        )
    | inr e ↦
        let (i, j) = walk-fetch file_desc l s acc (d.1) in
        let t : file_frames file_desc ((id, p) ∷ l) ≡ file_frames file_desc l = rw e refl in
        let w = walk-step id p l (ap (λ b. fetched b id p) e) in
        (
          ap (λ g. g.1) w ∙ i ∙ ap (λ x. acc ++ x) (sym t),
          λ a. ap (λ g. g.0 a) w ∙ j a ∙ ap (λ x. if has a x then pinned (s a) else s a) (sym t),
        )
  ]
    where
      fetched : Bool → FrameId → ℕ → Bool × ((ℕ → PageFrame D) × List ℕ)
      fetched b id p = if b then (true, (pin_frame s p, acc ++ (p ∷ []))) else (true, (s, acc))

      walk-step :
          {g : Bool × ((ℕ → PageFrame D) × List ℕ)} (id : FrameId) (p : ℕ) (l : List (FrameId × ℕ))
          → fetch file_desc (s, acc) id p ≡ g
          → walk (fetch file_desc) ((id, p) ∷ l) (s, acc)
            ≡ (if g.0 then walk (fetch file_desc) l (g.1) else g.1)
      walk-step id p l e = ap (λ g. if g.0 then walk (fetch file_desc) l (g.1) else g.1) e

      chosen :
          (a p : ℕ) (F : List ℕ)
          → has p F ≡ false
          → (if has a F then pinned (pin_frame s p a) else pin_frame s p a)
            ≡ (if has a (p ∷ F) then pinned (s a) else s a)
      chosen a p F h = elim (ℕ_discrete a p) [
        | yes q ↦ rw (ap (λ b. has b F) q ∙ h, (==_iff a p).1 q) (ap (λ b. pinned (s b)) (sym q))
        | no q ↦ rw (==_ne a p q) refl
      ]

  -- On a valid manager, `find_list` answers the frames of the pages of the file, and each of them has
  -- one pin more, no other frame changed; there is enough fuel.
  pub find_list-fetched :
      (m : BpFrameManager D) (l : List (FrameId × ℕ)) (file_desc : ℕ)
      → IsValid m l
      → ((find_list m file_desc).0 ≡ file_frames file_desc l)
        × ((a : ℕ)
            → (find_list m file_desc).1.store a
              ≡ (if has a (file_frames file_desc l) then pinned (m.store a) else m.store a))
  unfolding find_list
  find_list-fetched m l file_desc v =
      let e =
        foreach_from-front (fetch file_desc) m.frames l (suc (count m.frames)) (m.store, [])
          v.refines (length-count m.frames l v.refines) in
      let (i, j) = walk-fetch file_desc l m.store [] v.once in
      (ap (λ g. g.1) e ∙ i, λ a. ap (λ g. g.0 a) e ∙ j a)

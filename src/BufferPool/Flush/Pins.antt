-- ===== src/BufferPool/Flush/Pins.antt =====
-- `flush_all_pages` pins the frames that it writes, and leaves them pinned.
use miniob_basic.Base.{
  ℕ, ◌*◌, ◌≡◌, refl, sym, ap, ◌∙◌, Bool, true, false, List, [], ◌∷◌, ℕ_discrete, if◌then◌else◌,
}
use miniob_basic.Base.Int.{ℤ, inc}
use miniob_basic.Rc.{Rc, is_success, success, ioerr_seek, ioerr_write}
use miniob_basic.Frame.{pin, clear_dirty}
use miniob_basic.LruCache.Seg.{has}
use miniob_basic.BufferPool.FrameManager.{
  FrameId, PageFrame, BpFrameManager, write_frame, pinned, find_list,
}
use miniob_basic.BufferPool.FrameManager.Valid.{IsValid, write_frame-other, write_frame_self}
use miniob_basic.BufferPool.FrameManager.FindList.{file_frames, find_list-fetched}
use miniob_basic.BufferPool.Flush.{
  File, is_before, flush_page_internal, flush_page, flush_pages, flush_all_pages, bp_page_size,
}

abbrev pin_count {ℓ} : {D : Type ℓ} → PageFrame D → ℤ
pin_count f = f.latches.pin_count

-- What both branches of a test give.
if_both {ℓ κ} :
    {A : Type ℓ} {B : Type κ} (g : A → B) (b : Bool) (x y : A) (c : B)
    → g x ≡ c
    → g y ≡ c
    → g (if b then x else y) ≡ c
if_both g true x y c p q = p
if_both g false x y c p q = q

pins-pinned {ℓ} :
    {D : Type ℓ} (b : Bool) (f : PageFrame D)
    → pin_count (if b then pinned f else f) ≡ (if b then inc (pin_count f) else pin_count f)
unfolding pin
pins-pinned true f = refl
pins-pinned false f = refl

module _ {ℓ κ} {D : Type ℓ} {W : Type κ} (file : File D W) where
  pins-flush_page_internal :
      (w : W) (f : PageFrame D) → pin_count ((flush_page_internal file w f).1) ≡ pin_count f
  unfolding flush_page_internal
  pins-flush_page_internal w f =
      let offset = f.page * bp_page_size in
      let (at_offset, w1) = file.lseek w offset in
      let (written, w2) = file.writen w1 f in
      let g : Rc × PageFrame D × W → ℤ = λ r. pin_count (r.1) in
      if_both g (is_before at_offset offset) (ioerr_seek, f, w1) _ (pin_count f) refl
        (if_both g written (success, record f { latches = clear_dirty f.latches }, w2)
          (ioerr_write, f, w2) (pin_count f) refl refl)

  pins-flush_page :
      (m : BpFrameManager D) (w : W) (p a : ℕ)
      → pin_count ((flush_page file m w p).1.store a) ≡ pin_count (m.store a)
  unfolding flush_page
  pins-flush_page m w p a = elim (ℕ_discrete a p) [
    | yes q ↦
        ap (λ b. pin_count (write_frame m.store p ((flush_page_internal file w (m.store p)).1) b)) q
        ∙ ap pin_count (write_frame_self m.store p ((flush_page_internal file w (m.store p)).1))
        ∙ pins-flush_page_internal w (m.store p)
        ∙ ap (λ b. pin_count (m.store b)) (sym q)
    | no q ↦
        ap pin_count (write_frame-other m.store p a ((flush_page_internal file w (m.store p)).1) q)
  ]

  pins-flush_pages :
      (ps : List ℕ) (m : BpFrameManager D) (w : W) (a : ℕ)
      → pin_count ((flush_pages file ps m w).1.store a) ≡ pin_count (m.store a)
  unfolding flush_pages
  pins-flush_pages [] m w a = refl
  pins-flush_pages (p ∷ ps) m w a =
      let r = flush_page file m w p in
      if_both (λ q. pin_count (q.1.store a)) (is_success (r.0)) (flush_pages file ps (r.1) (r.2)) r
        (pin_count (m.store a)) (pins-flush_pages ps (r.1) (r.2) a ∙ pins-flush_page m w p a)
        (pins-flush_page m w p a)

  -- Whatever the calls on the file answer, `flush_all_pages` on a valid manager leaves every frame of
  -- the file with one pin more than before, and no other frame with a change to its pins.
  pub flush_all_pages-pinned :
      (m : BpFrameManager D) (l : List (FrameId × ℕ)) (w : W) (file_desc a : ℕ)
      → IsValid m l
      → pin_count ((flush_all_pages file m w file_desc).1.store a) ≡ (
          if has a (file_frames file_desc l)
          then inc (pin_count (m.store a))
          else pin_count (m.store a))
  unfolding flush_all_pages
  flush_all_pages-pinned m l w file_desc a v =
      let (i, j) = find_list-fetched m l file_desc v in
      pins-flush_pages ((find_list m file_desc).0) ((find_list m file_desc).1) w a
      ∙ ap pin_count (j a)
      ∙ pins-pinned (has a (file_frames file_desc l)) (m.store a)

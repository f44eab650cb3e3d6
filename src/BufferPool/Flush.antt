-- ===== src/BufferPool/Flush.antt =====
-- disk_buffer_pool.cpp, the part of DiskBufferPool that writes pages to the file. The calls of the
-- system on the file are a parameter, over what they change (`W`); `none` is their answer -1.
pub mod Pins
mod Tests
use miniob_basic.Base.{
  ℕ, zero, suc, ◌+◌, ◌*◌, Bool, true, false, Option, none, some, List, [], ◌∷◌, ◌==◌, if◌then◌else◌,
}
use miniob_basic.Rc.{Rc, success, ioerr_seek, ioerr_write, is_success}
use miniob_basic.Frame.{clear_dirty}
use miniob_basic.BufferPool.FrameManager.{PageFrame, BpFrameManager, write_frame, find_list}

-- `lseek` to an offset from the start, and `writen` of a page, `true` where that returns 0.
pub record File {ℓ κ} (D : Type ℓ) (W : Type κ) : Type (ℓ ⊔ κ) where
  pub lseek : W → ℕ → Option ℕ × W
  pub writen : W → PageFrame D → Bool × W

abbrev pub bp_page_size : ℕ
bp_page_size = 8192

-- `lseek(..) == offset - 1`
abbrev pub is_before : Option ℕ → ℕ → Bool
is_before none offset = offset == 0
is_before (some o) offset = o + 1 == offset

module _ {ℓ κ} {D : Type ℓ} {W : Type κ} (file : File D W) where
  pub flush_page_internal : W → PageFrame D → Rc × PageFrame D × W
  flush_page_internal w f =
      let offset = f.page * bp_page_size in
      let (at_offset, w1) = file.lseek w offset in
      if is_before at_offset offset
      then (ioerr_seek, f, w1)
      else (let (written, w2) = file.writen w1 f in
          if written
          then (success, record f { latches = clear_dirty f.latches }, w2)
          else (ioerr_write, f, w2))

  -- `flush_page`, whose lock is held, for the frame at an address.
  pub flush_page : BpFrameManager D → W → ℕ → Rc × BpFrameManager D × W
  flush_page m w p =
      let (rc, f, w') = flush_page_internal w (m.store p) in
      (rc, record m { store = write_frame m.store p f }, w')

  -- The loop of `flush_all_pages`
  pub flush_pages : List ℕ → BpFrameManager D → W → Rc × BpFrameManager D × W
  flush_pages [] m w = (success, m, w)
  flush_pages (p ∷ ps) m w =
      let (rc, m', w') = flush_page m w p in
      let rest = flush_pages ps m' w' in if is_success rc then rest else (rc, m', w')

  pub flush_all_pages : BpFrameManager D → W → (file_desc : ℕ) → Rc × BpFrameManager D × W
  flush_all_pages m w file_desc = let (used, m') = find_list m file_desc in flush_pages used m' w

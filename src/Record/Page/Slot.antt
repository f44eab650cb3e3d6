-- ===== src/Record/Page/Slot.antt =====
-- Writing the bytes of one slot, and what it leaves alone.
use miniob_basic.Base.{
  ℕ, ◌+◌, ◌-◌, ◌*◌, ◌/◌, ◌≤◌, ◌<◌, ◌≡◌, ◌≢◌, ◌∙◌, ◌⊎◌, inl, inr, List, arith, length, get_or,
  dec_lt,
}
use miniob_basic.Bitmap.{get_bit}
use miniob_basic.Memory.{memcpy, slice}
use miniob_basic.Record.Page.{Page, page_header_size, record_data}
use miniob_basic.Memory.{get_or-memcpy, slice-memcpy, slice-memcpy_apart, slice-congr}
use miniob_basic.Record.Page.Valid.{IsValid}

-- A slot's record ends where the next may begin.
slot_end : (i n s : ℕ) → i < n → s * i + s ≤ n * s
slot_end i n s h = grind arith

slot_order : (i k s : ℕ) → i < k → s * i + s ≤ s * k
slot_order i k s h = grind arith

module _ (p : Page) (v : IsValid p) (mem source : List ℕ) (i : ℕ) (hi : i < p.record_capacity)
    (len : length mem ≡ length p.bytes) where
  abbrev pub written : List ℕ
  written = memcpy p.record_real_size mem (record_data p i) source

  pub slot_inside : record_data p i + p.record_real_size ≤ length mem
  slot_inside = omega (arith, slot_end i p.record_capacity p.record_size hi, v.fits)

  pub written_bit :
      (j : ℕ)
      → j < p.record_capacity
      → get_bit (record { mem = written; base = page_header_size; size = p.record_capacity }) j
        ≡ get_bit (record { mem = mem; base = page_header_size; size = p.record_capacity }) j
  unfolding get_bit
  written_bit j h =
      let q : get_or written (20 + j / 8) 0 ≡ get_or mem (20 + j / 8) 0 = ground (
        arith,
        get_or-memcpy p.record_real_size mem (record_data p i) source (20 + j / 8) slot_inside,
        v.fits,
      ) in
      rw q

  pub written_self :
      slice p.record_real_size written (record_data p i) ≡ slice p.record_real_size source 0
  written_self = slice-memcpy p.record_real_size mem (record_data p i) source slot_inside

  pub written_other :
      (k : ℕ)
      → ((j : ℕ) → p.first_record_offset ≤ j → get_or mem j 0 ≡ get_or p.bytes j 0)
      → i ≢ k
      → slice p.record_real_size written (record_data p k)
        ≡ slice p.record_real_size p.bytes (record_data p k)
  written_other k same ne =
      slice-memcpy_apart p.record_real_size p.record_real_size mem (record_data p i)
        (record_data p k) source slot_inside apart
      ∙ slice-congr p.record_real_size mem p.bytes (record_data p k) (record_data p k)
          (λ j h. same (record_data p k + j) (omega arith))
    where
      apart :
          (record_data p k + p.record_real_size ≤ record_data p i)
          ⊎ (record_data p i + p.record_real_size ≤ record_data p k)
      apart = elim (dec_lt i k) [
        | yes c ↦ inr (omega (arith, slot_order i k p.record_size c, v.fits))
        | no c ↦ inl (omega (arith, slot_order k i p.record_size (omega arith), v.fits))
      ]

  pub written_byte :
      ((j : ℕ) → get_or mem j 0 < 256)
      → ((j : ℕ) → get_or source j 0 < 256)
      → (j : ℕ) → get_or written j 0 < 256
  written_byte hm hs j = ground (
    arith,
    get_or-memcpy p.record_real_size mem (record_data p i) source j slot_inside,
    hm j,
    hs (j - record_data p i),
  )

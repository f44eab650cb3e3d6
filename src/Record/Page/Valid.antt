-- ===== src/Record/Page/Valid.antt =====
-- What holds of every page of records, and what a page holds in a slot.
use miniob_basic.Base.{
  ℕ, ◌+◌, ◌*◌, ◌≤◌, ◌<◌, ◌≡◌, List, Option, none, some, if◌then◌else◌, length, get_or, arith,
}
use miniob_basic.Bitmap.{get_bit, bytes}
use miniob_basic.Bitmap.Get
use miniob_basic.Memory.{slice}
use miniob_basic.Record.Page.{
  Page, PageHeader, page_header_size, page_bitmap_size, bitmap, record_data,
}
use miniob_basic.Record.Page.Count.{count}

-- The bitmap lies between the header and the first record, and the last record ends in the page.
pub record FitsIn (h : PageHeader) (size : ℕ) : Type 0 where
  pub bitmap_fits : page_header_size + page_bitmap_size h.record_capacity ≤ h.first_record_offset
  pub records_fit : h.first_record_offset + h.record_capacity * h.record_size ≤ size
  pub real_fits : h.record_real_size ≤ h.record_size

pub record IsValid (p : Page) : Type 0 where
  pub fits : FitsIn (p.header) (length p.bytes)
  pub byte : (i : ℕ) → get_or p.bytes i 0 < 256
  pub counted : p.record_num ≡ count (get_bit (bitmap p)) p.record_capacity

-- The record in a slot, if there is one.
abbrev pub record_at : Page → ℕ → Option (List ℕ)
record_at p slot =
    if get_bit (bitmap p) slot
    then some (slice p.record_real_size p.bytes (record_data p slot))
    else none

pub bytes-eq-page_bitmap_size : (n : ℕ) → bytes n ≡ page_bitmap_size n
bytes-eq-page_bitmap_size n = ground arith

pub bitmap-IsValid : (p : Page) → IsValid p → Get.IsValid (bitmap p)
bitmap-IsValid p v = record {
  byte = v.byte;
  inside = omega (arith, v.fits, bytes-eq-page_bitmap_size p.record_capacity);
}

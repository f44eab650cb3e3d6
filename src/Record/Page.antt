-- ===== src/Record/Page.antt =====
-- `RecordPageHandler` and `RecordPageIterator`, record_manager.cpp: the slots of one page.
-- The bytes of the page are `bytes`; the fields of its `PageHeader`, its first 20 bytes, are those
-- of the record, and no operation writes those bytes but through the fields. A frame's latch and
-- pin are `attached`: the handler holds both, or neither.
pub mod Count
pub mod Valid
mod Slot
pub mod Layout
pub mod Insert
pub mod Delete
pub mod Iterate
mod Tests
use miniob_basic.Base.{
  ℕ, zero, suc, ◌+◌, ◌-◌, ◌*◌, ◌/◌, ◌%◌, Bool, true, false, Option, none, some, List, [], ◌∷◌, ltb,
  leb, ◌==◌, if◌then◌else◌, get_or, set, replicate,
}
use miniob_basic.Rc.{
  Rc, success, record_nomem, record_invalid_rid, record_not_exist, invalid_argument, record_eof,
  Run,
}
use miniob_basic.Memory.{memcpy, memset_zero, slice}
use miniob_basic.Bitmap.{Bitmap, get_bit, set_bit, clear_bit, next_unsetted_bit, next_setted_bit}
use miniob_basic.Record.Rid.{Rid}

abbrev pub page_header_size : ℕ
page_header_size = 20

-- `BP_PAGE_SIZE` less a page number and a log sequence number, page.h.
abbrev pub bp_page_data_size : ℕ
bp_page_data_size = 8184

pub record PageHeader : Type 0 where
  pub record_num : ℕ
  pub record_real_size : ℕ
  pub record_size : ℕ
  pub record_capacity : ℕ
  pub first_record_offset : ℕ

pub record Page : Type 0 where
  pub header : PageHeader
  pub open header use *
  pub bytes : List ℕ
  pub dirty : Bool

pub record Handler : Type 0 where
  pub page : Page
  pub page_num : ℕ
  pub readonly : Bool
  pub attached : Bool

abbrev pub align8 : ℕ → ℕ
align8 size = (size + 7) / 8 * 8

-- The division by `record_size + 0.125` is that by an eighth of `8 * record_size + 1`; the
-- truncated quotient of doubles this small is the quotient of integers.
abbrev pub page_record_capacity : ℕ → ℕ → ℕ
page_record_capacity page_size record_size =
    (page_size - page_header_size - 1) * 8 / (8 * record_size + 1)

abbrev pub page_bitmap_size : ℕ → ℕ
page_bitmap_size record_capacity = (record_capacity + 7) / 8

-- The loop of `fix_record_capacity`, on the capacity and the end of the last record. The fuel is
-- the capacity: a record that ends past the page takes one round.
fix_capacity : ℕ → ℕ → ℕ → ℕ → ℕ
fix_capacity zero size capacity last = capacity
fix_capacity (suc fuel) size capacity last =
    let rest = fix_capacity fuel size (capacity - 1) (last - size) in
    if ltb bp_page_data_size last then rest else capacity

pub fix_record_capacity : PageHeader → PageHeader
unfolding fix_capacity
fix_record_capacity h = record h {
  record_capacity =
      fix_capacity h.record_capacity h.record_size h.record_capacity
        (h.first_record_offset + h.record_capacity * h.record_size);
}

-- The header that `init_empty_page` writes, before its `ASSERT`.
unfoldable pub empty_header : ℕ → PageHeader
unfolding fix_record_capacity
empty_header record_size = fix_record_capacity header
  where
    capacity : ℕ
    capacity = page_record_capacity bp_page_data_size (align8 record_size)

    header : PageHeader
    header = record {
      record_num = 0;
      record_real_size = record_size;
      record_size = align8 record_size;
      record_capacity = capacity;
      first_record_offset = align8 (page_header_size + page_bitmap_size capacity);
    }

abbrev pub bitmap : Page → Bitmap
bitmap p = record { mem = p.bytes; base = page_header_size; size = p.record_capacity }

abbrev pub record_data : Page → ℕ → ℕ
record_data p slot_num = p.first_record_offset + p.record_size * slot_num

-- `init_empty_page` once the frame is there: the `ASSERT`, the cleared bitmap, and the flush.
pub init_empty_page : Handler → ℕ → Run Handler
init_empty_page h record_size =
    let header = empty_header record_size in
    if ltb bp_page_data_size
      (header.first_record_offset + header.record_capacity * header.record_size)
    then none
    else some (record h {
      page = record {
        header = header;
        bytes = memset_zero h.page.bytes page_header_size (page_bitmap_size header.record_capacity);
        dirty = false;
      };
    })

-- `RecordPageHandler::cleanup`
pub cleanup : Handler → Handler
cleanup h = record h { attached = false }

pub is_full : Page → Bool
is_full p = leb p.record_capacity p.record_num

-- the record's bytes and the bit of its slot
abbrev pub store : Page → Bitmap → ℕ → List ℕ → Page
store p marked slot_num source = record p {
  bytes = memcpy p.record_real_size marked.mem (record_data p slot_num) source;
  dirty = true;
}

abbrev pub set_record_num : Page → ℕ → Page
set_record_num p n = record p { header = record (p.header) { record_num = n } }

-- A full bitmap below a record count that says otherwise would write at bit -1.
unfoldable pub insert_record : Handler → List ℕ → Run (Rc × Handler × Option Rid)
insert_record h source =
    let p = h.page in
    if h.readonly
    then none
    else if p.record_num == p.record_capacity
    then some (record_nomem, h, none)
    else elim (next_unsetted_bit (bitmap p) 0) [
      | none ↦ none
      | some index ↦ some (
        success,
        record h {
          page =
              store (set_record_num p (p.record_num + 1)) (set_bit (bitmap p) index) index source;
        },
        some (record { page_num = h.page_num; slot_num = index }),
      )
    ]

pub recover_insert_record : Handler → List ℕ → Rid → Rc × Handler
recover_insert_record h source rid =
    let p = h.page in
    if leb p.record_capacity rid.slot_num
    then (record_invalid_rid, h)
    else if get_bit (bitmap p) rid.slot_num
    then (success, record h { page = store p (bitmap p) rid.slot_num source })
    else (
      success,
      record h {
        page =
            store (set_record_num p (p.record_num + 1)) (set_bit (bitmap p) rid.slot_num)
              rid.slot_num source;
      },
    )

abbrev detach_if : Bool → Handler → Handler
detach_if b h = if b then cleanup h else h

pub delete_record : Handler → Rid → Run (Rc × Handler)
delete_record h rid =
    let p = h.page in
    if h.readonly
    then none
    else if leb p.record_capacity rid.slot_num
    then some (invalid_argument, h)
    else if get_bit (bitmap p) rid.slot_num
    then some (
      success,
      detach_if (p.record_num - 1 == 0) (record h {
        page = record (set_record_num p (p.record_num - 1)) {
          bytes = (clear_bit (bitmap p) rid.slot_num).mem;
          dirty = true;
        };
      }),
    )
    else some (record_not_exist, h)

-- The record is its identifier and its `record_real_size` bytes.
unfoldable pub get_record : Handler → Rid → Rc × Option (Rid × List ℕ)
get_record h rid =
    let p = h.page in
    if leb p.record_capacity rid.slot_num
    then (record_invalid_rid, none)
    else if get_bit (bitmap p) rid.slot_num
    then (success, some (rid, slice p.record_real_size p.bytes (record_data p rid.slot_num)))
    else (record_not_exist, none)

-- `RecordPageIterator`, over the page as it is at each call: the handler and `next_slot_num_`.
pub record Iterator : Type 0 where
  pub handler : Handler
  pub next_slot_num : Option ℕ

unfoldable pub iterator_init : Handler → ℕ → Iterator
iterator_init h start_slot_num = record {
  handler = h;
  next_slot_num = next_setted_bit (bitmap h.page) start_slot_num;
}

-- `has_next`, then `next`: the slot that the iterator stands at. At its end it stays there.
unfoldable pub iterator_next : Iterator → Rc × Option ℕ × Iterator
iterator_next it = elim it.next_slot_num [
  | none ↦ (record_eof, none, it)
  | some slot ↦ (
    success,
    some slot,
    record it { next_slot_num = next_setted_bit (bitmap it.handler.page) (slot + 1) },
  )
]

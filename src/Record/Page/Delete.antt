-- ===== src/Record/Page/Delete.antt =====
-- `delete_record` and `get_record`.
use miniob_basic.Base.{
  ℕ, ◌+◌, ◌-◌, ◌/◌, ◌≤◌, ◌<◌, ◌≡◌, ◌≢◌, refl, ◌⊎◌, inl, inr, true, false, none, some, arith, leb,
  ◌==◌, if◌then◌else◌, get_or, length, Bool-cases, dec_lt, lt→not_leb, le→leb,
}
use miniob_basic.Bitmap.{get_bit, clear_bit}
use miniob_basic.Bitmap.Get
use miniob_basic.Bitmap.Get.{get_bit-clear_bit, clear_bit_apart}
use miniob_basic.Rc.{success, record_not_exist, record_invalid_rid, invalid_argument}
use miniob_basic.Record.Rid.{Rid}
use miniob_basic.Memory.{slice}
use miniob_basic.Record.Page.{
  Page, Handler, bitmap, record_data, set_record_num, delete_record, get_record, cleanup,
}
use miniob_basic.Record.Page.Count.{count_free}
use miniob_basic.Memory.{slice-congr}
use miniob_basic.Record.Page.Valid.{IsValid, record_at, bitmap-IsValid}

-- The page `q` is `p` without the record in slot `i`.
pub record IsFreed (p : Page) (i : ℕ) (q : Page) : Type 0 where
  pub valid : IsValid q
  pub layout : q.header ≡ record (p.header) { record_num = p.record_num - 1 }
  pub slots :
      (j : ℕ) → j < p.record_capacity → record_at q j ≡ (if i == j then none else record_at p j)

abbrev freed : Page → ℕ → Page
freed p i = record (set_record_num p (p.record_num - 1)) {
  bytes = (clear_bit (bitmap p) i).mem;
  dirty = true;
}

module _ (p : Page) (v : IsValid p) (i : ℕ) (hi : i < p.record_capacity)
    (taken : get_bit (bitmap p) i ≡ true) where
  cleared :
      Get.IsValid (clear_bit (bitmap p) i)
      × ((j : ℕ)
          → get_bit (clear_bit (bitmap p) i) j ≡ (if i == j then false else get_bit (bitmap p) j))
  cleared = get_bit-clear_bit (bitmap p) (bitmap-IsValid p v) i hi

  apart :
      (length (clear_bit (bitmap p) i).mem ≡ length p.bytes)
      × ((j : ℕ) → j ≢ 20 + i / 8 → get_or (clear_bit (bitmap p) i).mem j 0 ≡ get_or p.bytes j 0)
  apart = clear_bit_apart (bitmap p) (bitmap-IsValid p v) i hi

  freed_bit :
      (j : ℕ) → get_bit (bitmap (freed p i)) j ≡ (if i == j then false else get_bit (bitmap p) j)
  unfolding clear_bit
  freed_bit j = cleared.1 j

  slice-freed :
      (j : ℕ)
      → slice p.record_real_size (freed p i).bytes (record_data p j)
        ≡ slice p.record_real_size p.bytes (record_data p j)
  slice-freed j =
      slice-congr p.record_real_size (freed p i).bytes p.bytes (record_data p j) (record_data p j)
        (λ k h. apart.1 (record_data p j + k) (omega (arith, v.fits)))

  freed-IsFreed : IsFreed p i (freed p i)
  freed-IsFreed = record {
    valid = record {
      fits = record {
        bitmap_fits = v.fits.bitmap_fits;
        records_fit = omega (arith, v.fits.records_fit, apart.0);
        real_fits = v.fits.real_fits;
      };
      byte = cleared.0.byte;
      counted =
          omega
            (arith, v.counted, count_free _ _ p.record_capacity i hi taken (λ j h. freed_bit j));
    };
    layout = refl;
    slots = λ j h. ground (arith, freed_bit j, slice-freed j);
  }

deleted :
    (h : Handler) (rid : Rid)
    → h.readonly ≡ false
    → rid.slot_num < h.page.record_capacity
    → get_bit (bitmap h.page) rid.slot_num ≡ true
    → delete_record h rid
      ≡ some (
        success,
        record h {
          page = freed h.page rid.slot_num;
          attached = if h.page.record_num - 1 == 0 then false else h.attached;
        },
      )
unfolding delete_record cleanup
deleted h rid w c t = elim (Bool-cases (h.page.record_num - 1 == 0)) [
  | inl e ↦ simp (w, lt→not_leb _ _ c, t, e)
  | inr e ↦ simp (w, lt→not_leb _ _ c, t, e)
]

-- On a valid page that is held for writing `delete_record` always returns. It refuses a slot past
-- the capacity, and one that holds no record. Otherwise it empties that slot alone and counts one
-- record less; the handler lets go of the page exactly if that was the last record.
pub delete_record_lem :
    (h : Handler) (rid : Rid)
    → IsValid h.page
    → h.readonly ≡ false
    → ((h.page.record_capacity ≤ rid.slot_num) × (delete_record h rid ≡ some (invalid_argument, h)))
      ⊎ ((rid.slot_num < h.page.record_capacity)
          × (record_at h.page rid.slot_num ≡ none)
          × (delete_record h rid ≡ some (record_not_exist, h)))
      ⊎ ((q : Page) × (delete_record h rid
            ≡ some (
              success,
              record h { page = q; attached = if q.record_num == 0 then false else h.attached },
            ))
          × (record_at h.page rid.slot_num ≢ none)
          × IsFreed h.page rid.slot_num q)
unfolding delete_record cleanup
delete_record_lem h rid v w = elim (dec_lt rid.slot_num h.page.record_capacity) [
  | no past ↦ inl (omega arith, simp (w, le→leb h.page.record_capacity rid.slot_num (omega arith)))
  | yes c ↦ elim (Bool-cases (get_bit (bitmap h.page) rid.slot_num)) [
    | inl t ↦ inr (
        inr (
          freed h.page rid.slot_num,
          deleted h rid w c t,
          (λ e. cc (rw t at e)),
          freed-IsFreed h.page v rid.slot_num c t,
        ))
    | inr f ↦ inr (inl (c, rw f, simp (w, lt→not_leb _ _ c, f)))
  ]
]

-- `get_record` hands out the record of the slot, and fails exactly where there is none.
pub get_record_lem :
    (h : Handler) (rid : Rid)
    → get_record h rid ≡ (
        if leb h.page.record_capacity rid.slot_num
        then (record_invalid_rid, none)
        else elim (record_at h.page rid.slot_num) [
          | none ↦ (record_not_exist, none)
          | some source ↦ (success, some (rid, source))
        ])
unfolding get_record
get_record_lem h rid = ground arith

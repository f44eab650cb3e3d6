-- ===== src/Record/Page/Layout.antt =====
-- `init_empty_page`: the layout that it computes never runs past the page.
use miniob_basic.Base.{
  ℕ, zero, suc, ◌+◌, ◌-◌, ◌*◌, ◌/◌, ◌≤◌, ◌<◌, ◌≡◌, refl, false, none, some, arith, ltb,
  if◌then◌else◌, length, get_or, replicate, get_or-replicate, dec_lt, lt→ltb, le→not_ltb, leb, ◌&&◌,
  sym,
}
use miniob_basic.Bitmap.{get_bit}
use miniob_basic.Bitmap.Get.{get_bit-zero}
use miniob_basic.Memory.{memcpy}
use miniob_basic.Record.Page.{
  Page, Handler, page_header_size, bp_page_data_size, page_bitmap_size, page_record_capacity,
  align8, fix_capacity, fix_record_capacity, empty_header, init_empty_page, bitmap,
}
use miniob_basic.Memory.{length-memcpy, get_or-memcpy}
use miniob_basic.Record.Page.Count.{count_none}
use miniob_basic.Record.Page.Valid.{FitsIn, IsValid, record_at}

mul_pred : (capacity size : ℕ) → 0 < capacity → capacity * size ≡ (capacity - 1) * size + size
mul_pred zero size h = absurd (omega arith)
mul_pred (suc n) size h = let q : suc n - 1 ≡ n = omega arith in rw q (omega arith)

last_less :
    (first capacity size : ℕ)
    → 0 < capacity
    → first + capacity * size - size ≡ first + (capacity - 1) * size
last_less first capacity size h = omega (arith, mul_pred capacity size h)

overlong_pos :
    (first capacity size : ℕ)
    → bp_page_data_size < first + capacity * size
    → first ≤ bp_page_data_size
    → 0 < capacity
overlong_pos first zero size c f = absurd (omega arith)
overlong_pos first (suc n) size c f = omega arith

-- The loop leaves a capacity whose last record ends in the page, if the first record begins there.
fix_capacity_fits :
    (fuel size capacity first : ℕ)
    → capacity ≤ fuel
    → first ≤ bp_page_data_size
    → let fixed = fix_capacity fuel size capacity (first + capacity * size) in
      (fixed ≤ capacity) × (first + fixed * size ≤ bp_page_data_size)
unfolding fix_capacity
fix_capacity_fits zero size capacity first h f =
    (omega arith, let q : capacity ≡ 0 = omega arith in rw q (omega arith))
fix_capacity_fits (suc fuel) size capacity first h f =
    elim (dec_lt bp_page_data_size (first + capacity * size)) [
      | yes c ↦ rw (lt→ltb _ _ c) (
          rw (last_less first capacity size (overlong_pos first capacity size c f)) (
            omega (
              arith,
              overlong_pos first capacity size c f,
              fix_capacity_fits fuel size (capacity - 1) first (omega arith) f,
            )))
      | no c ↦
          rw (le→not_ltb (first + capacity * size) bp_page_data_size (omega arith)) (omega arith)
    ]

quotient_le : (a b : ℕ) → a / (b + 1) ≤ a
quotient_le a b = grind arith

-- However small the records, the bitmap ends before the page does.
first_record_le :
    (size : ℕ)
    → let capacity = page_record_capacity bp_page_data_size size in
      (page_header_size + page_bitmap_size capacity
        ≤ align8 (page_header_size + page_bitmap_size capacity))
      × (align8 (page_header_size + page_bitmap_size capacity) ≤ bp_page_data_size)
first_record_le size =
    let few : page_record_capacity bp_page_data_size size ≤ 65304 = quotient_le 65304 (8 * size) in
    omega (arith, few)

empty_header-FitsIn : (record_size : ℕ) → FitsIn (empty_header record_size) bp_page_data_size
unfolding empty_header fix_record_capacity
empty_header-FitsIn record_size =
    let size = align8 record_size in
    let capacity = page_record_capacity bp_page_data_size size in
    let first = align8 (page_header_size + page_bitmap_size capacity) in
    let fixed =
      fix_capacity_fits capacity size capacity first (omega arith) (first_record_le size).1 in
    record {
      bitmap_fits = omega (arith, fixed, first_record_le size);
      records_fit = fixed.1;
      real_fits = omega arith;
    }

-- `init_empty_page` passes its `ASSERT` for every record size, and leaves a valid page of that
-- record size in which every slot is free.
pub init_empty_page_lem :
    (h : Handler) (record_size : ℕ)
    → length h.page.bytes ≡ bp_page_data_size
    → ((j : ℕ) → get_or h.page.bytes j 0 < 256)
    → (q : Page) × (init_empty_page h record_size ≡ some (record h { page = q }))
      × IsValid q
      × (q.record_num ≡ 0)
      × (q.record_real_size ≡ record_size)
      × ((j : ℕ) → j < q.record_capacity → record_at q j ≡ none)
unfolding init_empty_page
init_empty_page_lem h record_size len byte = (
  q,
  rw (le→not_ltb _ bp_page_data_size fits.records_fit),
  record {
    fits = record {
      bitmap_fits = fits.bitmap_fits;
      records_fit = omega (
        arith,
        fits.records_fit,
        len,
        length-memcpy cleared h.page.bytes 20 (replicate cleared 0),
      );
      real_fits = fits.real_fits;
    };
    byte = λ j. ground (arith, zeroed j, byte j, get_or-replicate {A = ℕ} cleared 0 (j - 20));
    counted = unfold empty_header fix_record_capacity in sym (count_none _ q.record_capacity free);
  },
  unfold empty_header fix_record_capacity in refl,
  unfold empty_header fix_record_capacity in refl,
  λ j c. rw (free j c),
)
  where
    fits : FitsIn (empty_header record_size) bp_page_data_size
    fits = empty_header-FitsIn record_size

    cleared : ℕ
    cleared = page_bitmap_size (empty_header record_size).record_capacity

    q : Page
    q = record {
      header = empty_header record_size;
      bytes = memcpy cleared h.page.bytes 20 (replicate cleared 0);
      dirty = false;
    }

    zeroed :
        (j : ℕ)
        → get_or q.bytes j 0 ≡ (
            if leb 20 j && ltb j (20 + cleared)
            then get_or (replicate cleared 0) (j - 20) 0
            else get_or h.page.bytes j 0)
    zeroed j =
        get_or-memcpy cleared h.page.bytes 20 (replicate cleared 0) j (omega (arith, fits, len))

    free : (j : ℕ) → j < q.record_capacity → get_bit (bitmap q) j ≡ false
    free j c =
        get_bit-zero (bitmap q) j (
          ground (arith, zeroed (20 + j / 8), get_or-replicate {A = ℕ} cleared 0 (20 + j / 8 - 20)))

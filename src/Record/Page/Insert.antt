-- ===== src/Record/Page/Insert.antt =====
-- `insert_record` and `recover_insert_record`: which slot they fill, and what all others keep.
use miniob_basic.Base.{
  ℕ, ◌+◌, ◌/◌, ◌≤◌, ◌<◌, ◌≡◌, ◌≢◌, refl, ap, sym, ◌∙◌, ◌⊎◌, inl, inr, true, false, not, Option,
  none, some, List, arith, ◌==◌, if◌then◌else◌, get_or, length, ==_ne, Bool-cases, ℕ_discrete,
  dec_lt, lt→not_leb, le→leb,
}
use miniob_basic.Bitmap.{get_bit, set_bit, next_unsetted_bit}
use miniob_basic.Bitmap.Get
use miniob_basic.Bitmap.Get.{get_bit-set_bit, set_bit_apart}
use miniob_basic.Bitmap.Search.{IsFirst, next_unsetted_bit-IsFirst}
use miniob_basic.Rc.{success, record_nomem, record_invalid_rid}
use miniob_basic.Record.Rid.{Rid}
use miniob_basic.Memory.{slice}
use miniob_basic.Record.Page.{
  Page, Handler, page_header_size, bitmap, record_data, store, set_record_num, insert_record,
  recover_insert_record,
}
use miniob_basic.Record.Page.Count.{count, count-all, count_take, count-congr}
use miniob_basic.Record.Page.Slot.{written, written_bit, written_self, written_other, written_byte}
use miniob_basic.Memory.{length-memcpy}
use miniob_basic.Record.Page.Valid.{IsValid, record_at, bitmap-IsValid}

-- The page `q` is `p` with the record `source` in the slot `i`, and `num` records.
pub record IsStored (p : Page) (i num : ℕ) (source : List ℕ) (q : Page) : Type 0 where
  pub valid : IsValid q
  pub layout : q.header ≡ record (p.header) { record_num = num }
  pub slots :
      (j : ℕ)
      → j < p.record_capacity
      → record_at q j ≡ (if i == j then some (slice p.record_real_size source 0) else record_at p j)

module _ (p : Page) (v : IsValid p) (source : List ℕ) (hs : (j : ℕ) → get_or source j 0 < 256)
    (i : ℕ) (hi : i < p.record_capacity) where
  -- A memory in which the slot's bit is set, and the count that goes with it.
  module _ (mem : List ℕ) (num : ℕ) (len : length mem ≡ length p.bytes)
      (byte : (j : ℕ) → get_or mem j 0 < 256)
      (apart : (j : ℕ) → p.first_record_offset ≤ j → get_or mem j 0 ≡ get_or p.bytes j 0)
      (bit : (j : ℕ)
        → get_bit (record { mem = mem; base = page_header_size; size = p.record_capacity }) j
          ≡ (if i == j then true else get_bit (bitmap p) j))
      (counted : num
        ≡ count
            (get_bit (record { mem = mem; base = page_header_size; size = p.record_capacity }))
            p.record_capacity) where
    abbrev stored : Page
    stored =
        store (set_record_num p num)
          (record { mem = mem; base = page_header_size; size = p.record_capacity }) i source

    stored_bit :
        (j : ℕ)
        → j < p.record_capacity
        → get_bit (bitmap stored) j ≡ (if i == j then true else get_bit (bitmap p) j)
    stored_bit j h = written_bit p v mem source i hi len j h ∙ bit j

    stored_slot :
        (j : ℕ)
        → j < p.record_capacity
        → record_at stored j
          ≡ (if i == j then some (slice p.record_real_size source 0) else record_at p j)
    stored_slot j h = elim (ℕ_discrete i j) [
      | yes e ↦ ground (
        arith,
        stored_bit j h,
        written_self p v mem source i hi len,
        ap (λ k. slice p.record_real_size (written p v mem source i hi len) (record_data p k)) e,
      )
      | no d ↦ ground (arith, stored_bit j h, written_other p v mem source i hi len j apart d)
    ]

    stored-IsStored : IsStored p i num source stored
    stored-IsStored = record {
      valid = record {
        fits = record {
          bitmap_fits = v.fits.bitmap_fits;
          records_fit = omega (
            arith,
            v.fits.records_fit,
            len,
            length-memcpy p.record_real_size mem (record_data p i) source,
          );
          real_fits = v.fits.real_fits;
        };
        byte = written_byte p v mem source i hi len byte hs;
        counted =
            counted
            ∙ count-congr _ _ p.record_capacity
                (λ j h. sym (written_bit p v mem source i hi len j h));
      };
      layout = refl;
      slots = stored_slot;
    }

  -- The slot was free.
  store_free :
      get_bit (bitmap p) i ≡ false
      → IsStored p i
          (p.record_num + 1)
          source
          (store (set_record_num p (p.record_num + 1)) (set_bit (bitmap p) i) i source)
  unfolding set_bit
  store_free free =
      stored-IsStored (set_bit (bitmap p) i).mem (p.record_num + 1) apart.0 set.0.byte
        (λ j h. apart.1 j (omega (arith, v.fits))) set.1
        (omega (arith, v.counted, count_take _ _ p.record_capacity i hi free (λ j h. set.1 j)))
    where
      set :
          Get.IsValid (set_bit (bitmap p) i)
          × ((j : ℕ)
              → get_bit (set_bit (bitmap p) i) j ≡ (if i == j then true else get_bit (bitmap p) j))
      set = get_bit-set_bit (bitmap p) (bitmap-IsValid p v) i hi

      apart :
          (length (set_bit (bitmap p) i).mem ≡ length p.bytes)
          × ((j : ℕ) → j ≢ 20 + i / 8 → get_or (set_bit (bitmap p) i).mem j 0 ≡ get_or p.bytes j 0)
      apart = set_bit_apart (bitmap p) (bitmap-IsValid p v) i hi

  -- The slot was taken.
  store_taken :
      get_bit (bitmap p) i ≡ true → IsStored p i p.record_num source (store p (bitmap p) i source)
  store_taken taken =
      stored-IsStored p.bytes p.record_num refl v.byte (λ j h. refl)
        (λ j. elim (ℕ_discrete i j) [
          | yes e ↦ ground (arith, ap (get_bit (bitmap p)) e)
          | no d ↦ ground arith
        ])
        v.counted

-- A count below the capacity leaves a slot free.
IsFirst-free :
    (p : Page)
    → IsValid p
    → p.record_num ≢ p.record_capacity
    → (i : ℕ) × (next_unsetted_bit (bitmap p) 0 ≡ some i)
      × IsFirst (λ j. not (get_bit (bitmap p) j)) 0 p.record_capacity (some i)
IsFirst-free p v ne =
    go (next_unsetted_bit (bitmap p) 0) refl (next_unsetted_bit-IsFirst (bitmap p) 0 (inl refl))
  where
    go :
        (r : Option ℕ)
        → next_unsetted_bit (bitmap p) 0 ≡ r
        → IsFirst (λ j. not (get_bit (bitmap p) j)) 0 p.record_capacity r
        → (i : ℕ) × (next_unsetted_bit (bitmap p) 0 ≡ some i)
          × IsFirst (λ j. not (get_bit (bitmap p) j)) 0 p.record_capacity (some i)
    go none e f = absurd (
        ne (
          v.counted
          ∙ count-all (get_bit (bitmap p)) p.record_capacity
              (λ j c. ground (arith, f j (omega arith) c))))
    go (some i) e f = (i, e, f)

-- On a valid page that is held for writing `insert_record` always returns. A full page is left
-- as it is, with RECORD_NOMEM. Otherwise the record goes to the first free slot, which the returned
-- identifier names; every other slot keeps its record, the page counts one record more, and it is
-- valid again.
pub insert_record_lem :
    (h : Handler) (source : List ℕ)
    → IsValid h.page
    → h.readonly ≡ false
    → ((j : ℕ) → get_or source j 0 < 256)
    → ((h.page.record_num ≡ h.page.record_capacity)
        × (insert_record h source ≡ some (record_nomem, h, none)))
      ⊎ ((i : ℕ) × (q : Page) × (insert_record h source
            ≡ some (
              success,
              record h { page = q },
              some (record { page_num = h.page_num; slot_num = i }),
            ))
          × IsFirst (λ j. not (get_bit (bitmap h.page) j)) 0 h.page.record_capacity (some i)
          × IsStored h.page i (h.page.record_num + 1) source q)
unfolding insert_record
insert_record_lem h source v w hs = elim (ℕ_discrete h.page.record_num h.page.record_capacity) [
  | yes e ↦ inl (e, ground arith)
  | no d ↦
      let (i, e, f) = IsFirst-free h.page v d in
      inr (
        i,
        store (set_record_num h.page (h.page.record_num + 1)) (set_bit (bitmap h.page) i) i source,
        simp (w, ==_ne _ _ d, e),
        f,
        store_free h.page v source hs i f.1 (ground arith),
      )
]

-- `recover_insert_record` puts the record into the slot that the log names, taken or not, keeps all
-- others, counts a record more only if the slot was free, and refuses a slot past the capacity.
pub recover_insert_record_lem :
    (h : Handler) (source : List ℕ) (rid : Rid)
    → IsValid h.page
    → ((j : ℕ) → get_or source j 0 < 256)
    → ((h.page.record_capacity ≤ rid.slot_num)
        × (recover_insert_record h source rid ≡ (record_invalid_rid, h)))
      ⊎ ((q : Page) × (recover_insert_record h source rid ≡ (success, record h { page = q }))
          × IsStored h.page rid.slot_num
              (if get_bit (bitmap h.page) rid.slot_num
                then h.page.record_num
                else h.page.record_num + 1)
              source
              q)
unfolding recover_insert_record
recover_insert_record_lem h source rid v hs = elim (dec_lt rid.slot_num h.page.record_capacity) [
  | no past ↦ inl (omega arith, rw (le→leb h.page.record_capacity rid.slot_num (omega arith)))
  | yes c ↦ elim (Bool-cases (get_bit (bitmap h.page) rid.slot_num)) [
    | inl t ↦ inr (
      store h.page (bitmap h.page) rid.slot_num source,
      rw (lt→not_leb _ _ c, t),
      rw t (store_taken h.page v source hs rid.slot_num c t),
    )
    | inr f ↦ inr (
      store (set_record_num h.page (h.page.record_num + 1)) (set_bit (bitmap h.page) rid.slot_num)
          rid.slot_num source,
      rw (lt→not_leb _ _ c, f),
      rw f (store_free h.page v source hs rid.slot_num c f),
    )
  ]
]

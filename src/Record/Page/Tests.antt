-- ===== src/Record/Page/Tests.antt =====
-- Runs on a page of two slots of eight bytes, and the theorems at such pages.
use miniob_basic.Base.{
  ℕ, zero, suc, ◌≤◌, ◌<◌, ◌≡◌, ◌≢◌, refl, ◌⊎◌, Bool, true, false, not, none, some, List, [], ◌∷◌,
  arith, if◌then◌else◌, ◌==◌, ◌&&◌, get_or, length, replicate, ltb, length-replicate,
  get_or-replicate,
}
use miniob_basic.Bitmap.{get_bit, set_bit, next_unsetted_bit, next_setted_bit}
use miniob_basic.Bitmap.Search.{IsFirst}
use miniob_basic.Rc.{success, record_nomem, record_not_exist, record_invalid_rid, invalid_argument}
use miniob_basic.Record.Rid.{Rid}
use miniob_basic.Memory.{memcpy, slice}
use miniob_basic.Record.Page.{
  Page, Handler, bitmap, init_empty_page, empty_header, insert_record, recover_insert_record,
  delete_record, get_record, iterator_init, iterator_next,
}
use miniob_basic.Record.Page.Count.{count}
use miniob_basic.Record.Page.Valid.{IsValid, record_at}
use miniob_basic.Record.Page.Layout.{init_empty_page_lem}
use miniob_basic.Record.Page.Insert.{IsStored, insert_record_lem, recover_insert_record_lem}
use miniob_basic.Record.Page.Delete.{IsFreed, delete_record_lem}
use miniob_basic.Record.Page.Iterate.{visit, places, visit-iterator_init}

-- slot 1 holds the record 9 8 7
abbrev one_record : Page
one_record = record {
  header = record {
    record_num = 1;
    record_real_size = 3;
    record_size = 8;
    record_capacity = 2;
    first_record_offset = 24;
  };
  bytes = memory;
  dirty = false;
}
  where
    memory : List ℕ
    memory =
        0 ∷ 0 ∷ 0 ∷ 0 ∷ 0 ∷ 0 ∷ 0 ∷ 0 ∷ 0 ∷ 0 ∷ 0 ∷ 0 ∷ 0 ∷ 0 ∷ 0 ∷ 0 ∷ 0 ∷ 0 ∷ 0 ∷ 0 ∷ 2 ∷ 0 ∷ 0
        ∷ 0 ∷ 0 ∷ 0 ∷ 0 ∷ 0 ∷ 0 ∷ 0 ∷ 0 ∷ 0 ∷ 9 ∷ 8 ∷ 7 ∷ 0 ∷ 0 ∷ 0 ∷ 0 ∷ 0 ∷ []

abbrev handler : Handler
handler = record { page = one_record; page_num = 5; readonly = false; attached = true }

abbrev slot : ℕ → Rid
slot n = record { page_num = 5; slot_num = n }

-- A memory of bytes has bytes everywhere.
are_bytes : List ℕ → Bool
are_bytes [] = true
are_bytes (x ∷ xs) = ltb x 256 && are_bytes xs

are_bytes_sound : (xs : List ℕ) → are_bytes xs ≡ true → (i : ℕ) → get_or xs i 0 < 256
unfolding are_bytes
are_bytes_sound [] h i = omega arith
are_bytes_sound (x ∷ xs) h zero = ground arith
are_bytes_sound (x ∷ xs) h (suc i) = are_bytes_sound xs (ground arith) i

one_record-IsValid : IsValid one_record
unfolding are_bytes count get_bit
one_record-IsValid = record {
  fits = omega arith;
  byte = are_bytes_sound one_record.bytes refl;
  counted = refl;
}

insert_run :
    insert_record handler (1 ∷ 2 ∷ 3 ∷ [])
    ≡ some (
      success,
      record handler {
        page = record one_record {
          header = record (one_record.header) { record_num = 2 };
          bytes =
              0 ∷ 0 ∷ 0 ∷ 0 ∷ 0 ∷ 0 ∷ 0 ∷ 0 ∷ 0 ∷ 0 ∷ 0 ∷ 0 ∷ 0 ∷ 0 ∷ 0 ∷ 0 ∷ 0 ∷ 0 ∷ 0 ∷ 0 ∷ 3 ∷ 0
              ∷ 0 ∷ 0 ∷ 1 ∷ 2 ∷ 3 ∷ 0 ∷ 0 ∷ 0 ∷ 0 ∷ 0 ∷ 9 ∷ 8 ∷ 7 ∷ 0 ∷ 0 ∷ 0 ∷ 0 ∷ 0 ∷ [];
          dirty = true;
        };
      },
      some (slot 0),
    )
unfolding insert_record next_unsetted_bit set_bit memcpy
insert_run = refl

get_run : get_record handler (slot 1) ≡ (success, some (slot 1, 9 ∷ 8 ∷ 7 ∷ []))
unfolding get_record get_bit slice
get_run = refl

visit_run : visit 3 (iterator_init handler 0) ≡ 1 ∷ []
unfolding visit iterator_init iterator_next next_setted_bit
visit_run = refl

layout_run : (empty_header 40).record_capacity ≡ 203
unfolding empty_header
layout_run = refl

insert_record_lem_example :
    ((◌≡◌ {A = ℕ} 1 2)
      × (insert_record handler (1 ∷ 2 ∷ 3 ∷ []) ≡ some (record_nomem, handler, none)))
    ⊎ ((i : ℕ) × (q : Page) × (insert_record handler (1 ∷ 2 ∷ 3 ∷ [])
          ≡ some (success, record handler { page = q }, some (slot i)))
        × IsFirst (λ j. not (get_bit (bitmap one_record) j)) 0 2 (some i)
        × IsStored one_record i 2 (1 ∷ 2 ∷ 3 ∷ []) q)
unfolding are_bytes
insert_record_lem_example =
    insert_record_lem handler (1 ∷ 2 ∷ 3 ∷ []) one_record-IsValid refl
      (are_bytes_sound (1 ∷ 2 ∷ 3 ∷ []) refl)

recover_insert_record_lem_example :
    ((2 ≤ 1)
      × (recover_insert_record handler (1 ∷ 2 ∷ 3 ∷ []) (slot 1) ≡ (record_invalid_rid, handler)))
    ⊎ ((q : Page) × (recover_insert_record handler (1 ∷ 2 ∷ 3 ∷ []) (slot 1)
          ≡ (success, record handler { page = q }))
        × IsStored one_record 1 1 (1 ∷ 2 ∷ 3 ∷ []) q)
unfolding are_bytes get_bit
recover_insert_record_lem_example =
    recover_insert_record_lem handler (1 ∷ 2 ∷ 3 ∷ []) (slot 1) one_record-IsValid
      (are_bytes_sound (1 ∷ 2 ∷ 3 ∷ []) refl)

delete_record_lem_example :
    ((2 ≤ 1) × (delete_record handler (slot 1) ≡ some (invalid_argument, handler)))
    ⊎ ((1 < 2)
        × (record_at one_record 1 ≡ none)
        × (delete_record handler (slot 1) ≡ some (record_not_exist, handler)))
    ⊎ ((q : Page) × (delete_record handler (slot 1)
          ≡ some (
            success,
            record handler { page = q; attached = if q.record_num == 0 then false else true },
          ))
        × (record_at one_record 1 ≢ none)
        × IsFreed one_record 1 q)
delete_record_lem_example = delete_record_lem handler (slot 1) one_record-IsValid refl

visit-iterator_init_example :
    visit 3 (iterator_init handler 0) ≡ places (get_bit (bitmap one_record)) 2 0
visit-iterator_init_example = visit-iterator_init handler

-- A memory of zeros, of any length.
blank : ℕ → List ℕ
blank n = replicate n 0

length-blank : (n : ℕ) → length (blank n) ≡ n
unfolding blank
length-blank n = length-replicate n 0

blank_bytes : (n j : ℕ) → get_or (blank n) j 0 < 256
unfolding blank
blank_bytes n j = rw (get_or-replicate {A = ℕ} n 0 j) (omega arith)

abbrev blank_handler : Handler
blank_handler = record handler { page = record one_record { bytes = blank 8184 } }

init_empty_page_lem_example :
    (q : Page) × (init_empty_page blank_handler 40 ≡ some (record blank_handler { page = q }))
    × IsValid q
    × (q.record_num ≡ 0)
    × (q.record_real_size ≡ 40)
    × ((j : ℕ) → j < q.record_capacity → record_at q j ≡ none)
init_empty_page_lem_example =
    init_empty_page_lem blank_handler 40 (length-blank 8184) (blank_bytes 8184)

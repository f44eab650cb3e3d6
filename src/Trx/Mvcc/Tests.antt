-- ===== src/Trx/Mvcc/Tests.antt =====
-- Tables in memory, which keep what `Tables` asks, and the theorems at runs on them.
use miniob_basic.Base.{
  ℕ, ◌+◌, ◌≡◌, ◌≢◌, refl, ap, ◌∙◌, true, false, Option, none, some, List, [], ◌∷◌, arith,
  if◌then◌else◌,
}
use miniob_basic.Base.Int.{pos, neg}
use miniob_basic.Rc.{Rc, success, record_nomem, record_not_exist, ioerr_sync, record_invisible, Run}
use miniob_basic.Trx.Store.{Key, same_key, Row, Tables, Setting}
use miniob_basic.Trx.Mvcc.{
  Trx, State, max_trx_id, visit_record, mark_deleted, insert_record, delete_record,
}
use miniob_basic.Trx.Mvcc.Atomic.{Request, put, drop, perform}
use miniob_basic.Trx.Mvcc.Anomaly.{visit_record-appears}

-- The slot that comes next, and the rows.
record Memory : Type 0 where
  next_slot : ℕ
  rows : Key → Option Row

abbrev write : Memory → Key → Option Row → Memory
write s k o = record s { rows = λ j. if same_key k j then o else s.rows j }

abbrev place : Memory → ℕ → Key
place s table_id = record { table_id = table_id; page_num = 1; slot_num = s.next_slot }

abbrev put_row : Memory → Key → Row → Option Row → Rc × Memory × Key
put_row s k r none = (success, record (write s k (some r)) { next_slot = s.next_slot + 1 }, k)
put_row s k r (some old) = (record_nomem, s, k)

put_row-done :
    (s : Memory) (k : Key) (r : Row) (o : Option Row)
    → s.rows k ≡ o
    → (put_row s k r o).0 ≡ success
    → (s.rows (put_row s k r o).2 ≡ none)
      × ((j : Key)
          → (put_row s k r o).1.rows j
            ≡ (if same_key (put_row s k r o).2 j then some r else s.rows j))
put_row-done s k r none e h = (e, λ j. refl)
put_row-done s k r (some old) e h = cc

put_row-failed :
    (s : Memory) (k : Key) (r : Row) (o : Option Row)
    → (put_row s k r o).0 ≢ success
    → (j : Key) → (put_row s k r o).1.rows j ≡ s.rows j
put_row-failed s k r none h j = absurd (h refl)
put_row-failed s k r (some old) h j = refl

abbrev take_row : Memory → Key → Option Row → Rc × Memory
take_row s k none = (record_not_exist, s)
take_row s k (some r) = (success, write s k none)

abbrev change_row : Memory → Key → Run Row → Run (Rc × Memory)
change_row s k none = none
change_row s k (some r) = some (success, write s k (some r))

abbrev visit_row : Memory → Key → (Row → Run Row) → Option Row → Run (Rc × Memory)
visit_row s k f none = some (record_not_exist, s)
visit_row s k f (some r) = change_row s k (f r)

take_row-done :
    (s : Memory) (k : Key) (r : Row)
    → s.rows k ≡ some r
    → ((take_row s k (s.rows k)).0 ≡ success)
      × ((j : Key) → (take_row s k (s.rows k)).1.rows j ≡ (if same_key k j then none else s.rows j))
take_row-done s k r e = (ap (λ o. (take_row s k o).0) e, λ j. ap (λ o. (take_row s k o).1.rows j) e)

visit_row-done :
    (s : Memory) (k : Key) (f : Row → Run Row) (r r' : Row)
    → s.rows k ≡ some r
    → f r ≡ some r'
    → (s' : Memory) × (visit_row s k f (s.rows k) ≡ some (success, s'))
      × ((j : Key) → s'.rows j ≡ (if same_key k j then some r' else s.rows j))
visit_row-done s k f r r' e h =
    (write s k (some r'), ap (visit_row s k f) e ∙ ap (change_row s k) h, λ j. refl)

abbrev memory : Tables
memory = record {
  Store = Memory;
  row_at = λ s k. s.rows k;
  insert_record = λ s table_id r. put_row s (place s table_id) r (s.rows (place s table_id));
  set_row = λ s k r. write s k (some r);
  delete_record = λ s k. take_row s k (s.rows k);
  visit_record = λ s k f. visit_row s k f (s.rows k);
  insert_done =
      λ s table_id r h. put_row-done s (place s table_id) r (s.rows (place s table_id)) refl h;
  insert_failed =
      λ s table_id r h j. put_row-failed s (place s table_id) r (s.rows (place s table_id)) h j;
  delete_done = take_row-done;
  visit_done = visit_row-done;
  visit_stopped = λ s k f r e h. ap (visit_row s k f) e ∙ ap (change_row s k) h;
  set_done = λ s k r r' e j. refl;
}

-- The usual build, with a log that cannot be written, and one with `DEBUG`.
abbrev release : Setting
release = record { tables = memory; debug = false; log_answers = λ log r. ioerr_sync }

abbrev checked : Setting
checked = record { tables = memory; debug = true; log_answers = λ log r. success }

-- One committed row, in slot 0.
abbrev old_key : Key
old_key = record { table_id = 1; page_num = 1; slot_num = 0 }

abbrev old_row : Row
old_row = record { begin_xid = pos 2; end_xid = pos max_trx_id; payload = 42 ∷ [] }

abbrev new_row : Row
new_row = record { begin_xid = pos 0; end_xid = pos 0; payload = 7 ∷ [] }

abbrev tables : Memory
tables = record { next_slot = 1; rows = λ k. if same_key old_key k then some old_row else none }

abbrev begun : State release
begun = record { store = tables; current_trx_id = 3; log = [] }

abbrev trx_3 : Trx
trx_3 = record { trx_id = 3; started = true; recovering = false; operations = [] }

abbrev trx_9 : Trx
trx_9 = record trx_3 { trx_id = 9 }

abbrev statement : List Request
statement = put 1 new_row ∷ drop old_key true ∷ []

abbrev worked : Run (State release × Trx)
worked = perform release begun trx_3 statement

abbrev or_begun : Run (State release × Trx) → State release × Trx
or_begun none = (begun, trx_3)
or_begun (some r) = r

visit_record-appears_example :
    (visit_record trx_3 (record old_row { begin_xid = pos 5 }) true ≡ record_invisible)
    × (mark_deleted true 9 (record old_row { begin_xid = pos 5 })
        ≡ some (record old_row { begin_xid = pos 5; end_xid = neg 9 }))
    × (visit_record trx_3 (record old_row { begin_xid = pos 5; end_xid = neg 9 }) true ≡ success)
visit_record-appears_example =
    visit_record-appears true trx_3 5 9 (42 ∷ []) (omega arith) (omega arith) (omega arith)

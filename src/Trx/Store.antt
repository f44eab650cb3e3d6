-- ===== src/Trx/Store.antt =====
-- What a transaction sees of the tables: rows with the two fields that transactions use, under the
-- keys by which `OperationEqualer` (trx.h) tells records apart.
use miniob_basic.Base.{
  ℕ, ◌≡◌, ◌≢◌, ◌↔◌, refl, Bool, true, ◌&&◌, Option, none, some, List, arith, ◌==◌, if◌then◌else◌,
}
use miniob_basic.Base.Int.{ℤ}
use miniob_basic.Rc.{Rc, success, Run}

pub record Key : Type 0 where
  pub table_id : ℕ
  pub page_num : ℕ
  pub slot_num : ℕ

-- `OperationEqualer`
abbrev pub same_key : Key → Key → Bool
same_key a b = a.table_id == b.table_id && (a.page_num == b.page_num && a.slot_num == b.slot_num)

pub same_key_iff : (a b : Key) → (same_key a b ≡ true) ↔ (a ≡ b)
same_key_iff a b = ground arith

pub same_key_refl : (a : Key) → same_key a a ≡ true
same_key_refl a = (same_key_iff a a).1 refl

-- A record with the fields `__trx_xid_begin` and `__trx_xid_end`.
pub record Row : Type 0 where
  pub begin_xid : ℤ
  pub end_xid : ℤ
  pub payload : List ℕ

-- The operations of `Table` that a transaction calls, with what it relies on. An updater that an
-- `ASSERT` stops gives `none`. `set_row` is a write through a record whose data pointer leads into its
-- page, as the record of a scan.
pub record Tables : Type 1 where
  pub Store : Type 0
  pub row_at : Store → Key → Option Row
  pub insert_record : Store → ℕ → Row → Rc × Store × Key
  pub delete_record : Store → Key → Rc × Store
  pub visit_record : Store → Key → (Row → Run Row) → Run (Rc × Store)
  pub set_row : Store → Key → Row → Store
  -- A record that is inserted takes a place that was free, and no other record changes.
  pub insert_done :
      (s : Store) (table_id : ℕ) (r : Row)
      → (insert_record s table_id r).0 ≡ success
      → (row_at s (insert_record s table_id r).2 ≡ none)
        × ((j : Key)
            → row_at (insert_record s table_id r).1 j
              ≡ (if same_key (insert_record s table_id r).2 j then some r else row_at s j))
  pub insert_failed :
      (s : Store) (table_id : ℕ) (r : Row)
      → (insert_record s table_id r).0 ≢ success
      → (j : Key) → row_at (insert_record s table_id r).1 j ≡ row_at s j
  -- A record that is there can be deleted and visited.
  pub delete_done :
      (s : Store) (k : Key) (r : Row)
      → row_at s k ≡ some r
      → ((delete_record s k).0 ≡ success)
        × ((j : Key) → row_at (delete_record s k).1 j ≡ (if same_key k j then none else row_at s j))
  pub visit_done :
      (s : Store) (k : Key) (f : Row → Run Row) (r r' : Row)
      → row_at s k ≡ some r
      → f r ≡ some r'
      → (s' : Store) × (visit_record s k f ≡ some (success, s'))
        × ((j : Key) → row_at s' j ≡ (if same_key k j then some r' else row_at s j))
  -- The updater is called on the record, so what stops it stops the visit.
  pub visit_stopped :
      (s : Store) (k : Key) (f : Row → Run Row) (r : Row)
      → row_at s k ≡ some r
      → f r ≡ none
      → visit_record s k f ≡ none
  pub set_done :
      (s : Store) (k : Key) (r r' : Row)
      → row_at s k ≡ some r
      → (j : Key) → row_at (set_row s k r') j ≡ (if same_key k j then some r' else row_at s j)

pub data LogRecord : Type 0 where
  mtr_begin : ℕ → LogRecord
  insert_log : ℕ → Key → Row → LogRecord
  delete_log : ℕ → Key → LogRecord
  mtr_commit : ℕ → ℕ → LogRecord
  mtr_rollback : ℕ → LogRecord

-- What a transaction works with: the tables, whether the build is one with `DEBUG`, in which alone an
-- `ASSERT` stops the program (log.h), and what `commit_trx` and `rollback_trx` of the log answer to
-- their record when the log has been given those before.
pub record Setting : Type 1 where
  pub tables : Tables
  pub debug : Bool
  pub log_answers : List LogRecord → LogRecord → Rc

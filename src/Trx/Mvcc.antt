-- ===== src/Trx/Mvcc.antt =====
-- `MvccTrx` and the counter of `MvccTrxKit`, mvcc_trx.cpp. The number of a transaction is that of
-- one that has started; the counter does not reach the largest `int`. The log is what
-- `CLogManager` has been given, newest first; a record that is appended under an `ASSERT` is taken,
-- and a commit or a rollback returns what the log answers to it. The set of operations is a list, in an
-- order on which no theorem depends. `none` is a run that an `ASSERT` stops.
pub mod Visible
pub mod Undo
pub mod Deletion
pub mod Atomic
pub mod Commit
pub mod Anomaly
mod Tests
use miniob_basic.Base.{
  ℕ, zero, suc, ◌+◌, ◌≡◌, Bool, true, false, not, ◌&&◌, ◌||◌, Option, none, some, List, [], ◌∷◌,
  if◌then◌else◌,
}
use miniob_basic.Base.Int.{ℤ, pos, negsuc, neg, negate, is_pos, is_neg, eq_ℤ, leb_ℤ}
use miniob_basic.Rc.{
  Rc, success, internal, record_invisible, locked_concurrency_conflict, is_success, Run,
}
use miniob_basic.Trx.Store.{
  Key, same_key, Row, Setting, LogRecord, mtr_begin, insert_log, delete_log, mtr_commit,
  mtr_rollback,
}

-- `numeric_limits<int32_t>::max()`
abbrev pub max_trx_id : ℕ
max_trx_id = 2147483647

pub data OperationType : Type 0 where
  insert update delete undefined : OperationType

pub record Operation : Type 0 where
  pub type : OperationType
  pub key : Key

pub record Trx : Type 0 where
  pub trx_id : ℕ
  pub started : Bool
  pub recovering : Bool
  pub operations : List Operation

-- `MvccTrx::visit_record`: whether a transaction may use a record that it has read.
pub visit_record : Trx → Row → Bool → Rc
visit_record trx row readonly =
    let begin_xid = row.begin_xid in
    let end_xid = row.end_xid in
    if is_pos begin_xid && is_pos end_xid
    then if leb_ℤ begin_xid (pos trx.trx_id) && leb_ℤ (pos trx.trx_id) end_xid
      then success
      else record_invisible
    else if is_neg begin_xid
    then if eq_ℤ (negate begin_xid) (pos trx.trx_id) then success else record_invisible
    else if is_neg end_xid
    then if readonly
      then if not (eq_ℤ (negate end_xid) (pos trx.trx_id)) then success else record_invisible
      else if not (eq_ℤ (negate end_xid) (pos trx.trx_id))
      then locked_concurrency_conflict
      else record_invisible
    else success

-- `operations_.insert`: an equal element stays as it is.
pub has_operation : Key → List Operation → Bool
has_operation k [] = false
has_operation k (o ∷ os) = same_key o.key k || has_operation k os

pub insert_operation : Operation → List Operation → List Operation
insert_operation o os = if has_operation o.key os then os else o ∷ os

-- `operations_.empty()`
abbrev pub is_empty : List Operation → Bool
is_empty [] = true
is_empty (o ∷ os) = false

-- `ASSERT`: whether it stops the program
abbrev pub stops : Bool → Bool → Bool
stops debug ok = debug && not ok

-- the updaters of the visits, with their `ASSERT`s
abbrev pub mark_deleted : Bool → ℕ → Row → Run Row
mark_deleted debug id r =
    if stops debug (eq_ℤ r.end_xid (pos max_trx_id))
    then none
    else some (record r { end_xid = neg id })

abbrev pub commit_begin : Bool → ℕ → ℕ → Row → Run Row
commit_begin debug id xid r =
    if stops debug (eq_ℤ r.begin_xid (neg id))
    then none
    else some (record r { begin_xid = pos xid })

abbrev pub commit_end : Bool → ℕ → ℕ → Row → Run Row
commit_end debug id xid r =
    if stops debug (eq_ℤ r.end_xid (neg id)) then none else some (record r { end_xid = pos xid })

abbrev pub restore_end : Bool → ℕ → Row → Run Row
restore_end debug id r =
    if stops debug (eq_ℤ r.end_xid (neg id))
    then none
    else some (record r { end_xid = pos max_trx_id })

-- `ASSERT(rc == RC::SUCCESS, …)`
abbrev pub must_succeed {ℓ} : {S : Type ℓ} → Bool → Run (Rc × S) → Run (Rc × S)
must_succeed debug none = none
must_succeed debug (some (rc, s)) = if stops debug (is_success rc) then none else some (rc, s)

module _ (t : Setting) where
  open t.tables use {Store, row_at}

  pub record State : Type 0 where
    pub store : Store
    pub current_trx_id : ℕ
    pub log : List LogRecord

  abbrev append_log : State → LogRecord → State
  append_log st r = record st { log = r ∷ st.log }

  -- `if (!recovering_)`, the record goes to the log.
  abbrev log_unless : Bool → State → LogRecord → State
  log_unless b st r = record st { log = if b then st.log else r ∷ st.log }

  -- `MvccTrxKit::next_trx_id`
  abbrev pub next_trx_id : State → ℕ × State
  next_trx_id st = (st.current_trx_id + 1, record st { current_trx_id = st.current_trx_id + 1 })

  pub start_if_need : State → Trx → Run (Rc × State × Trx)
  start_if_need st trx =
      let (id, st') = next_trx_id st in
      if trx.started
      then some (success, st, trx)
      else if stops t.debug (is_empty trx.operations)
      then none
      else some (success, append_log st' (mtr_begin id), record trx { trx_id = id; started = true })

  -- `MvccTrx::insert_record`, into the table with that identifier.
  pub insert_record : State → Trx → ℕ → Row → Rc × State × Trx
  insert_record st trx table_id source =
      let row = record source { begin_xid = neg trx.trx_id; end_xid = pos max_trx_id } in
      let (rc, store, key) = t.tables.insert_record st.store table_id row in
      let st' = record st { store = store } in
      if is_success rc
      then (
        if has_operation key trx.operations then internal else success,
        append_log st' (insert_log trx.trx_id key row),
        record trx {
          operations =
              insert_operation (record { type = OperationType.insert; key = key }) trx.operations;
        },
      )
      else (rc, st', trx)

  -- What `delete_record` does once the stored record is marked.
  delete_logged : State → Trx → Key → Run (Rc × Store) → Run (Rc × State × Trx)
  delete_logged st trx key none = none
  delete_logged st trx key (some (rc, store)) =
      if is_success rc
      then some (
        success,
        append_log (record st { store = store }) (delete_log trx.trx_id key),
        record trx {
          operations =
              insert_operation (record { type = OperationType.delete; key = key }) trx.operations;
        },
      )
      else some (rc, record st { store = store }, trx)

  -- `end_field.set_int(record, …)`: the caller's record, whose data lie in the page or in a copy.
  abbrev pub set_end : Bool → Store → Key → Row → Store
  set_end true store key row = t.tables.set_row store key row
  set_end false store key row = store

  -- `MvccTrx::delete_record`: `row` is the record as the caller has read it, and `in_page` whether its
  -- data are those of the page.
  pub delete_record : State → Trx → Key → (in_page : Bool) → Row → Run (Rc × State × Trx)
  unfolding delete_logged
  delete_record st trx key in_page row =
      let store = set_end in_page st.store key (record row { end_xid = neg trx.trx_id }) in
      if stops t.debug (is_pos row.end_xid)
      then none
      else if not (eq_ℤ row.end_xid (pos max_trx_id))
      then some (success, st, trx)
      else delete_logged st trx key
          (t.tables.visit_record store key (mark_deleted t.debug trx.trx_id))

  -- One operation in the loop of `commit_with_trx_id`, by its type, with `rc` as it was before.
  commit_operation : ℕ → ℕ → OperationType → Key → Rc → Store → Run (Rc × Store)
  commit_operation id xid OperationType.insert key rc store =
      must_succeed t.debug (t.tables.visit_record store key (commit_begin t.debug id xid))
  commit_operation id xid OperationType.delete key rc store =
      must_succeed t.debug (t.tables.visit_record store key (commit_end t.debug id xid))
  commit_operation id xid OperationType.update key rc store =
      if stops t.debug false then none else some (rc, store)
  commit_operation id xid OperationType.undefined key rc store =
      if stops t.debug false then none else some (rc, store)

  pub commit_operations : ℕ → ℕ → List Operation → Rc → Store → Run (Rc × Store)
  commit_operations id xid [] rc store = some (rc, store)
  commit_operations id xid (o ∷ os) rc store =
      elim (commit_operation id xid o.type o.key rc store) [
        | none ↦ none
        | some (rc', store') ↦ commit_operations id xid os rc' store'
      ]

  abbrev ended : Trx → Trx
  ended trx = record trx { started = false; operations = [] }

  -- `if (!recovering_)`, `rc` is what the log answers.
  abbrev pub answer_unless : Bool → Rc → State → LogRecord → Rc
  answer_unless recovering rc st r = if recovering then rc else t.log_answers st.log r

  pub commit_with_trx_id : State → Trx → ℕ → Run (Rc × State × Trx)
  commit_with_trx_id st trx commit_xid =
      let r = mtr_commit trx.trx_id commit_xid in
      elim (commit_operations trx.trx_id commit_xid trx.operations success st.store) [
        | none ↦ none
        | some (rc, store) ↦ some (
          answer_unless trx.recovering rc st r,
          log_unless trx.recovering (record st { store = store }) r,
          ended trx,
        )
      ]

  pub commit : State → Trx → Run (Rc × State × Trx)
  unfolding commit_with_trx_id
  commit st trx = let (xid, st') = next_trx_id st in commit_with_trx_id st' trx xid

  -- One operation in the loop of `rollback`, by its type. `get_record` wants the record to be there:
  -- without it, the build without `DEBUG` would delete a record that was never set, which is left out
  -- as `none`.
  delete_present : Key → Option Row → Store → Run (Rc × Store)
  delete_present key none store = none
  delete_present key (some r) store = must_succeed t.debug (some (t.tables.delete_record store key))

  rollback_operation : ℕ → OperationType → Key → Rc → Store → Run (Rc × Store)
  unfolding delete_present
  rollback_operation id OperationType.insert key rc store =
      delete_present key (row_at store key) store
  rollback_operation id OperationType.delete key rc store =
      if stops t.debug (is_success rc)
      then none
      else must_succeed t.debug (t.tables.visit_record store key (restore_end t.debug id))
  rollback_operation id OperationType.update key rc store =
      if stops t.debug false then none else some (rc, store)
  rollback_operation id OperationType.undefined key rc store =
      if stops t.debug false then none else some (rc, store)

  pub rollback_operations : ℕ → List Operation → Rc → Store → Run (Rc × Store)
  rollback_operations id [] rc store = some (rc, store)
  rollback_operations id (o ∷ os) rc store = elim (rollback_operation id o.type o.key rc store) [
    | none ↦ none
    | some (rc', store') ↦ rollback_operations id os rc' store'
  ]

  pub rollback : State → Trx → Run (Rc × State × Trx)
  rollback st trx =
      let r = mtr_rollback trx.trx_id in
      elim (rollback_operations trx.trx_id trx.operations success st.store) [
        | none ↦ none
        | some (rc, store) ↦ some (
          answer_unless trx.recovering rc st r,
          log_unless trx.recovering (record st { store = store }) r,
          ended trx,
        )
      ]

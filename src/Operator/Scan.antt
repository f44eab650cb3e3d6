-- ===== src/Operator/Scan.antt =====
-- src/observer/sql/operator/table_scan_physical_operator.cpp, over the scanner of a table.
pub mod Rows
use miniob_basic.Base.{
  ℕ, zero, suc, Bool, true, false, not, ◌&&◌, Option, none, some, List, [], ◌∷◌, if◌then◌else◌,
}
use miniob_basic.Rc.{Rc, success, record_eof, is_success, Run}
use miniob_basic.Operator.Stream.{PhysicalOperator, ◌>>=◌}

-- `RecordFileScanner`: `open_scan` is `Table::get_record_scanner`.
pub record Scanner (R : Type 0) : Type 1 where
  pub State : Type 0
  pub open_scan : State → Rc × State
  pub has_next : State → Bool
  pub next : State → Rc × R × State
  pub close_scan : State → Rc × State

-- `filter`, over the predicates that are left
pub filter_tuple : {T : Type 0} → List (T → Rc × Bool) → T → Rc × Bool
filter_tuple [] t = (success, true)
filter_tuple (expr ∷ exprs) t =
    if not (is_success (expr t).0)
    then ((expr t).0, false)
    else if not (expr t).1
    then (success, false)
    else filter_tuple exprs t

-- `tuple` shows a record by the schema of the table.
module _ {R T : Type 0} (scanner : Scanner R) (tuple : R → T)
    (predicates : List (T → Rc × Bool)) where
  pub record TableScan : Type 0 where
    pub record_scanner : scanner.State
    pub current_record : Option R

  -- `next` with its loop, with fuel. No record is left at the start, or behind one that is filtered
  -- out: both ways the answer is RECORD_EOF.
  pub scan_next : ℕ → TableScan → Run (Rc × TableScan)
  scan_next zero s = none
  scan_next (suc fuel) s =
      let (rc', r, scan) = scanner.next s.record_scanner in
      let s' : TableScan = record { record_scanner = scan; current_record = some r } in
      let (rc'', result) = filter_tuple predicates (tuple r) in
      let rest = scan_next fuel s' in
      if not (scanner.has_next s.record_scanner)
      then some (record_eof, s)
      else if not (is_success rc')
      then some (rc', s')
      else if not (is_success rc'')
      then some (rc'', s')
      else if result
      then some (success, s')
      else rest

  pub scan_open : TableScan → Run (Rc × TableScan)
  scan_open s =
      let (rc, scan) = scanner.open_scan s.record_scanner in
      some (rc, record s { record_scanner = scan })

  pub scan_close : TableScan → Run (Rc × TableScan)
  scan_close s =
      let (rc, scan) = scanner.close_scan s.record_scanner in
      some (rc, record s { record_scanner = scan })

  pub scan_tuple : TableScan → Option T
  scan_tuple s = elim s.current_record [ none ↦ none | some r ↦ some (tuple r) ]

  abbrev pub scan_operator : ℕ → PhysicalOperator T
  scan_operator fuel = record {
    State = TableScan;
    open_child = scan_open;
    next = scan_next fuel;
    close = scan_close;
    current_tuple = scan_tuple;
  }

-- ===== src/Operator/Tests.antt =====
-- A query over two tables of two rows: `select * from t, u where t.a = u.a`.
use miniob_basic.Base.{ℕ, ◌≡◌, refl, Bool, true, false, none, some, List, [], ◌∷◌, map, arith, ◌==◌}
use miniob_basic.Rc.{Rc, success, record_eof, ioerr_read}
use miniob_basic.Operator.Tuple.{Tuple, cached_row_tuple}
use miniob_basic.Operator.Stream.{PhysicalOperator, Produces}
use miniob_basic.Operator.Predicate.{predicate_operator, filter, Produces-predicate}
use miniob_basic.Operator.Scan.{Scanner, TableScan, scan_operator}
use miniob_basic.Operator.Scan.Rows.{
  Scans, scan_end, scan_record, ScanClosed, all_hold, Produces-scan,
}
use miniob_basic.Operator.Join.{NestedLoopJoin, open_join, join_operator}
use miniob_basic.Operator.Join.Broken.{HandsOut, broken, still, open_join-Breaks}
use miniob_basic.Operator.Join.Steps.{JoinClosed}
use miniob_basic.Operator.Join.Product.{product}
use miniob_basic.Operator.Join.Open.{round_tuples, Produces-join}

-- The records of a table, and those that a scanner has not handed out.
abbrev list_scanner : List ℕ → Scanner ℕ
list_scanner rows = record {
  State = List ℕ;
  open_scan = λ s. (success, rows);
  has_next = λ s. elim s [ [] ↦ false | x ∷ xs ↦ true ];
  next = λ s. elim s [ [] ↦ (record_eof, 0, []) | x ∷ xs ↦ (success, x, xs) ];
  close_scan = λ s. (success, []);
}

abbrev AnyState : List ℕ → Type 0
AnyState s = Unit

list_scanner-Scans : (rows s : List ℕ) → Scans (list_scanner rows) AnyState s s
list_scanner-Scans rows [] = scan_end [] refl refl tt
list_scanner-Scans rows (x ∷ xs) = scan_record xs [] refl refl refl tt (list_scanner-Scans rows xs)

abbrev row : ℕ → Tuple ℕ
row x = cached_row_tuple (1 ∷ []) ((2 ∷ []) ∷ []) (some x ∷ [])

-- The predicate of a scan: the first cell is not 9.
abbrev first_cell : Tuple ℕ → ℕ
first_cell t = elim ((t.cell_at 0).1) [ none ↦ 0 | some x ↦ x ]

abbrev is_small : Tuple ℕ → Bool
is_small t = elim (first_cell t == 9) [ true ↦ false | false ↦ true ]

abbrev small : Tuple ℕ → Rc × Bool
small t = (success, is_small t)

abbrev table_t : PhysicalOperator (Tuple ℕ)
table_t = scan_operator (list_scanner (3 ∷ 9 ∷ 4 ∷ [])) row (small ∷ []) 9

abbrev TableClosed : TableScan (list_scanner (3 ∷ 9 ∷ 4 ∷ [])) row (small ∷ []) → Type 0
TableClosed = ScanClosed (list_scanner (3 ∷ 9 ∷ 4 ∷ [])) row (small ∷ []) (is_small ∷ []) AnyState

abbrev table_tuples : List (Tuple ℕ)
table_tuples = filter (all_hold (is_small ∷ [])) (map row (3 ∷ 9 ∷ 4 ∷ []))

Produces-scan_example : Produces table_t TableClosed table_tuples
Produces-scan_example =
    Produces-scan (list_scanner (3 ∷ 9 ∷ 4 ∷ [])) row (small ∷ []) (is_small ∷ []) AnyState 9
      (3 ∷ 9 ∷ 4 ∷ [])
      (λ c k. (3 ∷ 9 ∷ 4 ∷ [], refl, list_scanner-Scans (3 ∷ 9 ∷ 4 ∷ []) (3 ∷ 9 ∷ 4 ∷ [])))
      ((refl, tt), ((refl, tt), ((refl, tt), tt))) (omega arith)

abbrev field_name : ℕ → List ℕ
field_name i = 2 ∷ []

abbrev join_t : PhysicalOperator (Tuple ℕ)
join_t = join_operator table_t table_t true (1 ∷ []) field_name 9

abbrev BothClosed : join_t.State → Type 0
BothClosed =
    JoinClosed table_t table_t true (1 ∷ []) field_name TableClosed TableClosed table_tuples

abbrev joined_tuples : List (Tuple ℕ)
joined_tuples = product table_tuples (
    round_tuples table_t table_t true (1 ∷ []) field_name TableClosed TableClosed table_tuples
      Produces-scan_example)

Produces-join_example : Produces join_t BothClosed joined_tuples
Produces-join_example =
    Produces-join table_t table_t true (1 ∷ []) field_name TableClosed TableClosed table_tuples
      Produces-scan_example table_tuples 9 Produces-scan_example (omega arith)

-- The cells of both sides are equal.
abbrev same_cells : Tuple ℕ → Bool
same_cells t = elim ((t.cell_at 0).1) [
  | none ↦ false
  | some x ↦ elim ((t.cell_at 1).1) [ none ↦ false | some y ↦ x == y ]
]

Produces-predicate_example :
    Produces
      (predicate_operator join_t (λ t. (success, same_cells t)) 9)
      BothClosed
      (filter same_cells joined_tuples)
Produces-predicate_example =
    Produces-predicate join_t BothClosed (λ t. (success, same_cells t)) same_cells 9 joined_tuples
      Produces-join_example (refl, (refl, (refl, (refl, tt)))) (omega arith)

-- A scan that cannot be read behind its first tuple.
abbrev broken_table : PhysicalOperator (Tuple ℕ)
broken_table = record {
  State = Bool;
  open_child = λ s. some (success, true);
  next = λ s. elim s [ true ↦ some (success, false) | false ↦ some (ioerr_read, false) ];
  close = λ s. some (success, s);
  current_tuple = λ s. some (row 3);
}

abbrev closed_join : NestedLoopJoin broken_table broken_table true (1 ∷ []) field_name
closed_join = record {
  left_state = true;
  left_tuple = none;
  right_side = record {
    right_state = true;
    right_tuple = none;
    round_done = true;
    right_closed = true;
    right_cached = false;
    right_field_names = [];
    right_rows = [];
    cached_idx = 0;
  };
}

open_join-Breaks_example :
    (j' : NestedLoopJoin broken_table broken_table true (1 ∷ []) field_name) × (open_join
        broken_table broken_table true
        (1 ∷ [])
        field_name
        9
        closed_join
      ≡ some (success, j'))
    × (j'.left_state ≡ true)
    × (j'.right_side.right_cached ≡ true)
    × (j'.right_side.round_done ≡ true)
    × (j'.right_side.right_rows ≡ (some 3 ∷ []) ∷ [])
    × HandsOut broken_table broken_table
        (1 ∷ [])
        field_name
        ioerr_read
        refl
        (field_name 0 ∷ [])
        ((some 3 ∷ []) ∷ [])
        j'.right_side
        (cached_row_tuple (1 ∷ []) (field_name 0 ∷ []) (some 3 ∷ []) ∷ [])
open_join-Breaks_example =
    open_join-Breaks broken_table broken_table (1 ∷ []) field_name ioerr_read refl 9 closed_join
      true true (row 3) [] refl (still false refl refl (broken false false success refl refl))
      (omega arith) refl

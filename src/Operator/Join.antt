-- ===== src/Operator/Join.antt =====
-- src/observer/sql/operator/join_physical_operator.cpp: the nested loop join, built over two children. The
-- rows of a right child that scans a table are cached.
pub mod Round
pub mod Steps
pub mod Product
pub mod Open
pub mod Broken
use miniob_basic.Base.{
  ℕ, zero, suc, ◌+◌, Bool, true, false, not, ◌&&◌, ◌||◌, Option, none, some, List, [], ◌∷◌, ◌++◌,
  if◌then◌else◌, length, leb, get_or,
}
use miniob_basic.Rc.{Rc, success, record_eof, is_success, Run}
use miniob_basic.Operator.Tuple.{Tuple, joined_tuple, cached_row_tuple, copy_cells}
use miniob_basic.Operator.Stream.{PhysicalOperator, ◌>>=◌}

abbrev pub is_record_eof : Rc → Bool
is_record_eof record_eof = true
is_record_eof rc = false

abbrev pub nth : {A : Type 0} → List A → ℕ → Option A
nth [] i = none
nth (x ∷ xs) zero = some x
nth (x ∷ xs) (suc i) = nth xs i

-- `is_table_scan` is the type of the right child, `table_name` and `field_name` are those of its
-- table.
module _ {V : Type 0} (left right : PhysicalOperator (Tuple V)) (is_table_scan : Bool)
    (table_name : List ℕ) (field_name : ℕ → List ℕ) where
  -- What a join keeps of its right child, and what of the left one.
  pub record RightSide : Type 0 where
    pub right_state : right.State
    pub right_tuple : Option (Tuple V)
    pub round_done : Bool
    pub right_closed : Bool
    pub right_cached : Bool
    pub right_field_names : List (List ℕ)
    pub right_rows : List (List (Option V))
    pub cached_idx : ℕ

  pub record NestedLoopJoin : Type 0 where
    pub left_state : left.State
    pub left_tuple : Option (Tuple V)
    pub right_side : RightSide

  abbrev pub names_of : ℕ → ℕ → List (List ℕ)
  names_of zero i = []
  names_of (suc n) i = field_name i ∷ names_of n (i + 1)

  -- The loop that caches the rows behind the first, with fuel. `current_tuple` is not tested for a
  -- null pointer.
  pub cache_rows :
      ℕ → right.State → List (List (Option V)) → Run (right.State × List (List (Option V)))
  cache_rows zero s rows = none
  cache_rows (suc fuel) s rows = right.next s >>= λ answer.
      let (rc, s') = answer in
      let rest = right.current_tuple s' >>= λ t.
      cache_rows fuel s' (rows ++ (copy_cells t.cell_num 0 t ∷ [])) in
      if is_success rc then rest else some (s', rows)

  -- `try_cache_right` behind the first row, which has been read into `s`.
  pub cache_from : ℕ → RightSide → right.State → Tuple V → Run RightSide
  cache_from fuel r s first =
      cache_rows fuel s (copy_cells first.cell_num 0 first ∷ []) >>= λ cached.
      right.close (cached.0) >>= λ closed. some (record r {
        right_state = closed.1;
        right_closed = true;
        right_cached = true;
        right_field_names = names_of first.cell_num 0;
        right_rows = cached.1;
      })

  -- `try_cache_right` over a right child that scans a table
  pub cache_right : ℕ → RightSide → Run RightSide
  cache_right fuel r = right.open_child r.right_state >>= λ opened.
      let (rc, s) = opened in
      if not (is_success rc)
      then some (record r { right_state = s })
      else right.next s >>= λ answer.
          let (rc', s') = answer in
          if not (is_success rc')
          then (right.close s' >>= λ closed. some (record r {
            right_state = closed.1;
            right_closed = true;
            right_rows = [];
            right_field_names = [];
          }))
          else right.current_tuple s' >>= cache_from fuel r s'

  -- `try_cache_right`, whose result `open` does not look at.
  pub try_cache_right : ℕ → RightSide → Run RightSide
  try_cache_right fuel r = if not is_table_scan then some r else cache_right fuel r

  -- The members that `open` sets anew.
  abbrev pub reset_right : RightSide → RightSide
  reset_right r = record r {
    right_closed = true;
    round_done = true;
    right_cached = false;
    right_rows = [];
    right_field_names = [];
    cached_idx = 0;
  }

  pub open_join : ℕ → NestedLoopJoin → Run (Rc × NestedLoopJoin)
  open_join fuel j = try_cache_right fuel (reset_right j.right_side) >>= λ r.
      left.open_child j.left_state >>= λ opened.
      some (opened.0, record j { left_state = opened.1; right_side = r })

  pub left_next : NestedLoopJoin → Run (Rc × NestedLoopJoin)
  left_next j = left.next j.left_state >>= λ answer.
      let (rc, s) = answer in
      if not (is_success rc)
      then some (rc, record j { left_state = s })
      else some (rc, record j { left_state = s; left_tuple = left.current_tuple s })

  -- The right child is opened for a new round, unless closing it has failed.
  pub reopen_right : RightSide → Rc × right.State → Run (Rc × RightSide)
  reopen_right r (rc, s) =
      if not (is_success rc)
      then some (rc, record r { right_state = s; right_closed = true })
      else right.open_child s >>= λ opened.
          let (rc', s') = opened in
          if not (is_success rc')
          then some (rc', record r { right_state = s'; right_closed = true })
          else some
              (success, record r { right_state = s'; right_closed = false; round_done = false })

  pub restart_right : RightSide → Run (Rc × RightSide)
  restart_right r =
      (if r.right_closed then some (success, r.right_state) else right.close r.right_state)
      >>= reopen_right r

  -- `right_next`, over the rows that are cached, at the row `idx`
  pub cached_step : RightSide → ℕ → Run (Rc × RightSide)
  cached_step r idx = elim (nth r.right_rows idx) [
    | none ↦ some (record_eof, record r { cached_idx = idx; round_done = true })
    | some row ↦ some (
      success,
      record r {
        cached_idx = idx + 1;
        round_done = false;
        right_tuple = some (cached_row_tuple table_name r.right_field_names row);
      },
    )
  ]

  -- `right_next`, over the right child, once the round has begun
  pub child_step : RightSide → Run (Rc × RightSide)
  child_step r = right.next r.right_state >>= λ answer.
      let (rc, s) = answer in
      if not (is_success rc)
      then some (rc, record r { right_state = s; round_done = is_record_eof rc || r.round_done })
      else some (success, record r { right_state = s; right_tuple = right.current_tuple s })

  pub right_next_child : RightSide → Run (Rc × RightSide)
  right_next_child r =
      (if r.round_done then restart_right r else some (success, r)) >>= λ restarted.
      if not (is_success restarted.0) then some restarted else child_step (restarted.1)

  pub right_next : RightSide → Run (Rc × RightSide)
  right_next r =
      if r.right_cached
      then cached_step r (if r.round_done then 0 else r.cached_idx)
      else right_next_child r

  -- The end of `next`, behind a round that is done: a step of the left child, then one of the right.
  pub step_right_side : Rc × NestedLoopJoin → Run (Rc × NestedLoopJoin)
  step_right_side (rc, j) =
      if not (is_success rc)
      then some (rc, j)
      else right_next j.right_side >>= λ answer. some (answer.0, record j { right_side = answer.1 })

  pub next_round : NestedLoopJoin → Run (Rc × NestedLoopJoin)
  next_round j = left_next j >>= step_right_side

  -- What `next` does with the answer of the right side inside a round.
  pub after_right : NestedLoopJoin → Rc × RightSide → Run (Rc × NestedLoopJoin)
  after_right j (rc, r) =
      if is_record_eof rc
      then next_round (record j { right_side = r })
      else some (rc, record j { right_side = r })

  pub join_next : NestedLoopJoin → Run (Rc × NestedLoopJoin)
  join_next j =
      if j.right_side.round_done then next_round j else right_next j.right_side >>= after_right j

  pub close_child : RightSide → Run (Rc × RightSide)
  close_child r = right.close r.right_state >>= λ closed.
      some (closed.0, record r { right_state = closed.1; right_closed = is_success closed.0 })

  -- The part of `close` for the right child; `rc` is what the left one answered.
  pub close_right : Rc → RightSide → Run (Rc × RightSide)
  close_right rc r =
      if not r.right_cached && not r.right_closed then close_child r else some (rc, r)

  pub close_join : NestedLoopJoin → Run (Rc × NestedLoopJoin)
  close_join j = left.close j.left_state >>= λ left_closed.
      close_right (left_closed.0) j.right_side >>= λ answer. some (
        answer.0,
        record j {
          left_state = left_closed.1;
          right_side = record (answer.1) { right_rows = []; right_field_names = [] };
        },
      )

  -- The joined tuple points to the tuples of both sides.
  pub join_tuple : NestedLoopJoin → Option (Tuple V)
  join_tuple j = j.left_tuple >>= λ l. j.right_side.right_tuple >>= λ r. some (joined_tuple l r)

  abbrev pub join_operator : ℕ → PhysicalOperator (Tuple V)
  join_operator fuel = record {
    State = NestedLoopJoin;
    open_child = open_join fuel;
    next = join_next;
    close = close_join;
    current_tuple = join_tuple;
  }

-- ===== src/Operator/Join/Steps.antt =====
-- Single steps of a join, and that it can be closed.
use miniob_basic.Base.{
  ℕ, ◌≡◌, refl, ap, ap₂, ◌∙◌, Bool, true, false, not, ◌&&◌, some, List, [], if◌then◌else◌,
}
use miniob_basic.Rc.{Rc, success, record_eof, is_success, Run}
use miniob_basic.Operator.Tuple.{Tuple}
use miniob_basic.Operator.Stream.{PhysicalOperator, ◌>>=◌, Closes, closes}
use miniob_basic.Operator.Join.{
  NestedLoopJoin, right_next, left_next, next_round, join_next, close_right, close_child,
  after_right, step_right_side, close_join, join_operator,
}
use miniob_basic.Operator.Join.Round.{
  Side, Fresh, fresh_cached, fresh_closed, fresh_ended, InRound, round_cached, round_child,
}

module _ {V : Type 0} (left right : PhysicalOperator (Tuple V)) (is_table_scan : Bool)
    (table_name : List ℕ) (field_name : ℕ → List ℕ) (LeftClosed : left.State → Type 0)
    (RightClosed : right.State → Type 0) (rs : List (Tuple V)) where
  abbrev pub Join : Type 0
  Join = NestedLoopJoin left right is_table_scan table_name field_name

  abbrev pub FreshSide :
      Side left right is_table_scan table_name field_name RightClosed rs → List (Tuple V) → Type 0
  FreshSide = Fresh left right is_table_scan table_name field_name RightClosed rs

  abbrev pub RoundSide :
      Side left right is_table_scan table_name field_name RightClosed rs
      → List (Tuple V)
      → List (Tuple V)
      → Type 0
  RoundSide = InRound left right is_table_scan table_name field_name RightClosed rs

  -- Both children are closed.
  abbrev pub JoinClosed : Join → Type 0
  JoinClosed j = LeftClosed j.left_state × RightClosed j.right_side.right_state

  abbrev pub op : ℕ → PhysicalOperator (Tuple V)
  op fuel = join_operator left right is_table_scan table_name field_name fuel

  abbrev close_side :
      Rc
      → Side left right is_table_scan table_name field_name RightClosed rs
      → Run (Rc × Side left right is_table_scan table_name field_name RightClosed rs)
  close_side = close_right left right is_table_scan table_name field_name

  abbrev pub SideCloses :
      Side left right is_table_scan table_name field_name RightClosed rs → Type 0
  SideCloses r =
      (r' : Side left right is_table_scan table_name field_name RightClosed rs) × (close_side
          success r
        ≡ some (success, r'))
      × RightClosed r'.right_state

  left_alone :
      (r : Side left right is_table_scan table_name field_name RightClosed rs)
      → (not r.right_cached && not r.right_closed) ≡ false
      → RightClosed r.right_state
      → SideCloses r
  unfolding close_right
  left_alone r e k = (
    r,
    ap
        (λ b.
          if b
          then close_child left right is_table_scan table_name field_name r
          else some (success, r))
        e,
    k,
  )

  side_closed :
      (r : Side left right is_table_scan table_name field_name RightClosed rs)
      → (not r.right_cached && not r.right_closed) ≡ true
      → Closes right RightClosed r.right_state
      → SideCloses r
  unfolding close_right close_child
  side_closed r b (closes c e k) = (
    record r { right_state = c; right_closed = true },
    ap
          (λ b.
            if b
            then close_child left right is_table_scan table_name field_name r
            else some (success, r))
          b
        ∙ ap
            (λ m. m >>= λ closed.
              some
                (closed.0, record r { right_state = closed.1; right_closed = is_success closed.0 }))
            e,
    k,
  )

  pub fresh_closes :
      (r : Side left right is_table_scan table_name field_name RightClosed rs)
      (out : List (Tuple V))
      → FreshSide r out
      → SideCloses r
  fresh_closes r out (fresh_cached c d k e) =
      left_alone r (ap (λ b. not b && not r.right_closed) c) k
  fresh_closes r out (fresh_closed c d f k e) = left_alone r (ap₂ (λ a b. not a && not b) c f) k
  fresh_closes r out (fresh_ended c d f k e) = side_closed r (ap₂ (λ a b. not a && not b) c f) k

  pub round_closes :
      (r : Side left right is_table_scan table_name field_name RightClosed rs)
      (out ts : List (Tuple V))
      → RoundSide r out ts
      → SideCloses r
  round_closes r out ts (round_cached c d k e q) =
      left_alone r (ap (λ b. not b && not r.right_closed) c) k
  round_closes r out ts (round_child c d f k y e) =
      side_closed r (ap₂ (λ a b. not a && not b) c f) k

  pub Closes-join :
      (fuel : ℕ) (j : Join)
      → Closes left LeftClosed j.left_state
      → SideCloses j.right_side
      → Closes (op fuel) JoinClosed j
  unfolding close_join
  Closes-join fuel j (closes c e k) (r', e', k') =
      closes
        record j {
          left_state = c;
          right_side = record r' { right_rows = []; right_field_names = [] };
        }
        (rw (e, e') refl) (k, k')

  pub left_end :
      (j : Join) (s : left.State)
      → left.next j.left_state ≡ some (record_eof, s)
      → next_round left right is_table_scan table_name field_name j
        ≡ some (record_eof, record j { left_state = s })
  unfolding next_round left_next step_right_side
  left_end j s e = rw e refl

  pub left_row :
      (j : Join) (s : left.State) (rc : Rc)
      (r : Side left right is_table_scan table_name field_name RightClosed rs)
      → left.next j.left_state ≡ some (success, s)
      → right_next left right is_table_scan table_name field_name j.right_side ≡ some (rc, r)
      → next_round left right is_table_scan table_name field_name j
        ≡ some (rc, record j { left_state = s; left_tuple = left.current_tuple s; right_side = r })
  unfolding next_round left_next step_right_side
  left_row j s rc r e f = rw (e, f) refl

  pub next-done :
      (j : Join)
      → j.right_side.round_done ≡ true
      → join_next left right is_table_scan table_name field_name j
        ≡ next_round left right is_table_scan table_name field_name j
  unfolding join_next
  next-done j e =
      ap
        (λ b.
          if b
          then next_round left right is_table_scan table_name field_name j
          else right_next left right is_table_scan table_name field_name j.right_side
            >>= after_right left right is_table_scan table_name field_name j)
        e

  pub next-inside :
      (j : Join) (a : Rc × Side left right is_table_scan table_name field_name RightClosed rs)
      → j.right_side.round_done ≡ false
      → right_next left right is_table_scan table_name field_name j.right_side ≡ some a
      → join_next left right is_table_scan table_name field_name j
        ≡ after_right left right is_table_scan table_name field_name j a
  unfolding join_next
  next-inside j a e f =
      ap
        (λ b.
          if b
          then next_round left right is_table_scan table_name field_name j
          else right_next left right is_table_scan table_name field_name j.right_side
            >>= after_right left right is_table_scan table_name field_name j)
        e
      ∙ ap (λ m. m >>= after_right left right is_table_scan table_name field_name j) f

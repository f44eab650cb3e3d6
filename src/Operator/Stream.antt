-- ===== src/Operator/Stream.antt =====
-- `PhysicalOperator` (physical_operator.h): the methods of an operator, over its state. `none` is a
-- run that does not end, or that ends the program. The transaction that `open` hands on is part of
-- the operator.
use miniob_basic.Base.{◌≡◌, Option, none, some, List, [], ◌∷◌}
use miniob_basic.Rc.{Rc, success, record_eof, Run}

infixl 5 ◌>>=◌
abbrev pub ◌>>=◌ : {A B : Type 0} → Run A → (A → Run B) → Run B
none >>= f = none
some a >>= f = f a

pub record PhysicalOperator (T : Type 0) : Type 1 where
  pub State : Type 0
  pub open_child : State → Run (Rc × State)
  pub next : State → Run (Rc × State)
  pub close : State → Run (Rc × State)
  pub current_tuple : State → Option T

module _ {T : Type 0} (op : PhysicalOperator T) (Closed : op.State → Type 0) where
  -- An operator that can be closed.
  pub data Closes (s : op.State) : Type 0 where
    closes : (c : op.State) → op.close s ≡ some (success, c) → Closed c → Closes s

  -- `next` hands out the tuples of the list and then reports their end; the operator can be closed
  -- at any time.
  pub data Yields : op.State → List T → Type 0 where
    finished :
        {s : op.State} (s' : op.State) → op.next s ≡ some (record_eof, s') → Closes s' → Yields s []
    yielded :
        {s : op.State} {t : T} {ts : List T} (s' : op.State)
        → op.next s ≡ some (success, s')
        → op.current_tuple s' ≡ some t
        → Closes s'
        → Yields s' ts
        → Yields s (t ∷ ts)

  -- The operator can be opened whenever it is closed, and then yields the tuples of the list.
  pub record Produces (ts : List T) : Type 0 where
    pub opens :
        (c : op.State)
        → Closed c
        → (s : op.State) × (op.open_child c ≡ some (success, s)) × Closes s × Yields s ts

-- ===== src/Operator/Predicate.antt =====
-- src/observer/sql/operator/predicate_physical_operator.cpp, built over its one child.
use miniob_basic.Base.{
  ℕ, zero, suc, ◌<◌, ◌≤◌, ◌≡◌, refl, sym, subst, inl, inr, Bool, not, none, some, List, [], ◌∷◌,
  if◌then◌else◌, length, Bool-cases, arith,
}
use miniob_basic.Rc.{Rc, success, internal, record_eof, is_success, Run}
use miniob_basic.Operator.Stream.{
  PhysicalOperator, ◌>>=◌, Closes, closes, Yields, finished, yielded, Produces,
}

module _ {T : Type 0} (child : PhysicalOperator T) (expression : T → Rc × Bool) where
  -- The loop of `next`, with fuel. The expression is evaluated by `get_value` and `get_boolean`.
  pub predicate_next : ℕ → child.State → Run (Rc × child.State)
  predicate_next zero s = none
  predicate_next (suc fuel) s = child.next s >>= λ answer.
      let (rc, s') = answer in
      let rest = predicate_next fuel s' in
      if not (is_success rc) then some (rc, s') else elim (child.current_tuple s') [
        | none ↦ some (internal, s')
        | some t ↦
            if not (is_success (expression t).0)
            then some ((expression t).0, s')
            else if (expression t).1
            then some (success, s')
            else rest
      ]

  -- `close` does not look at what the child answers.
  pub predicate_close : child.State → Run (Rc × child.State)
  predicate_close s = child.close s >>= λ answer. some (success, answer.1)

  abbrev pub predicate_operator : ℕ → PhysicalOperator T
  predicate_operator fuel = record {
    State = child.State;
    open_child = child.open_child;
    next = predicate_next fuel;
    close = predicate_close;
    current_tuple = child.current_tuple;
  }

abbrev pub filter : {T : Type 0} → (T → Bool) → List T → List T
filter holds [] = []
filter holds (t ∷ ts) = if holds t then t ∷ filter holds ts else filter holds ts

abbrev pub Evaluates : {T : Type 0} → (T → Rc × Bool) → (T → Bool) → List T → Type 0
Evaluates expression holds [] = Unit
Evaluates expression holds (t ∷ ts) =
    (expression t ≡ (success, holds t)) × Evaluates expression holds ts

module _ {T : Type 0} (child : PhysicalOperator T) (Closed : child.State → Type 0)
    (expression : T → Rc × Bool) (holds : T → Bool) where
  Closes-predicate :
      (fuel : ℕ) (s : child.State)
      → Closes child Closed s
      → Closes (predicate_operator child expression fuel) Closed s
  unfolding predicate_close
  Closes-predicate fuel s (closes c e h) = closes c (rw e refl) h

  -- What one call of `next` finds among the tuples that the child still yields.
  data Found (fuel : ℕ) (s : child.State) (ts : List T) : Type 0 where
    found_end :
        (s' : child.State)
        → filter holds ts ≡ []
        → predicate_next child expression fuel s ≡ some (record_eof, s')
        → Closes child Closed s'
        → Found fuel s ts
    found_tuple :
        (s' : child.State) (t : T) (rest : List T)
        → filter holds ts ≡ t ∷ filter holds rest
        → predicate_next child expression fuel s ≡ some (success, s')
        → child.current_tuple s' ≡ some t
        → Closes child Closed s'
        → Yields child Closed s' rest
        → Evaluates expression holds rest
        → length rest < length ts
        → Found fuel s ts

  find :
      (fuel : ℕ) (s : child.State) (ts : List T)
      → Yields child Closed s ts
      → Evaluates expression holds ts
      → length ts < fuel
      → Found fuel s ts
  unfolding predicate_next
  find zero s ts y v h = absurd (omega arith)
  find (suc fuel) s [] (finished s' e c) v h = found_end s' refl (rw e refl) c
  find (suc fuel) s (t ∷ ts) (yielded s' e f c y) v h = elim (Bool-cases (holds t)) [
    | inl b ↦ found_tuple s' t ts (rw b refl) (rw (e, f, v.0, b) refl) f c y (v.1) (omega arith)
    | inr b ↦ elim (find fuel s' ts y (v.1) (omega arith)) [
      | found_end s'' q g c' ↦ found_end s'' (rw b q) (rw (e, f, v.0, b) g) c'
      | found_tuple s'' t' rest q g f' c' y' v' l ↦
          found_tuple s'' t' rest (rw b q) (rw (e, f, v.0, b) g) f' c' y' v' (omega arith)
    ]
  ]

  Yields-predicate :
      (n fuel : ℕ) (s : child.State) (ts : List T)
      → length ts ≤ n
      → Yields child Closed s ts
      → Evaluates expression holds ts
      → length ts < fuel
      → Yields (predicate_operator child expression fuel) Closed s (filter holds ts)
  Yields-predicate zero fuel s [] b (finished s' e c) v h =
      elim (find fuel s [] (finished s' e c) v h) [
        | found_end s'' q g c' ↦ finished s'' g (Closes-predicate fuel s'' c')
        | found_tuple s'' t rest q g f c' y' v' l ↦ absurd (omega arith)
      ]
  Yields-predicate zero fuel s (t ∷ ts) b y v h = absurd (omega arith)
  Yields-predicate (suc n) fuel s ts b y v h = elim (find fuel s ts y v h) [
    | found_end s' q g c ↦
        subst (Yields (predicate_operator child expression fuel) Closed s) (sym q)
          (finished s' g (Closes-predicate fuel s' c))
    | found_tuple s' t rest q g f c y' v' l ↦
        subst (Yields (predicate_operator child expression fuel) Closed s) (sym q) (
          yielded s' g f (Closes-predicate fuel s' c)
            (Yields-predicate n fuel s' rest (omega arith) y' v' (omega arith)))
  ]

  -- Over a child that produces tuples at each of which the expression has a value, the predicate
  -- operator produces, in the same order, those at which it holds. The fuel exceeds their number.
  pub Produces-predicate :
      (fuel : ℕ) (ts : List T)
      → Produces child Closed ts
      → Evaluates expression holds ts
      → length ts < fuel
      → Produces (predicate_operator child expression fuel) Closed (filter holds ts)
  Produces-predicate fuel ts p v h = record {
    opens = λ c d.
        let (s, e, k, y) = p.opens c d in
        (
          s,
          e,
          Closes-predicate fuel s k,
          Yields-predicate (length ts) fuel s ts (omega arith) y v h,
        );
  }

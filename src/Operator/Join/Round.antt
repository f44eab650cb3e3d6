-- ===== src/Operator/Join/Round.antt =====
-- Rounds of the right child of a join: each hands out all its tuples.
use miniob_basic.Base.{
  Option-cases, ℕ, zero, suc, ◌+◌, ◌≡◌, refl, sym, ap, subst, ◌∙◌, inl, inr, Bool, true, false, not,
  Option, none, some, List, [], ◌∷◌, if◌then◌else◌, arith, drop, map,
}
use miniob_basic.Rc.{Rc, success, record_eof, is_success, Run}
use miniob_basic.Operator.Tuple.{Tuple, cached_row_tuple, copy_cells}
use miniob_basic.Operator.Stream.{
  PhysicalOperator, ◌>>=◌, Closes, closes, Yields, finished, yielded, Produces,
}
use miniob_basic.Operator.Join.{
  RightSide, nth, restart_right, reopen_right, cached_step, child_step, right_next_child,
  right_next,
}

module _ {V : Type 0} (left right : PhysicalOperator (Tuple V)) (is_table_scan : Bool)
    (table_name : List ℕ) (field_name : ℕ → List ℕ) (Closed : right.State → Type 0)
    (rs : List (Tuple V)) where
  abbrev pub Side : Type 0
  Side = RightSide left right is_table_scan table_name field_name

  abbrev pub step_right : Side → Run (Rc × Side)
  step_right = right_next left right is_table_scan table_name field_name

  abbrev pub cells_of : Tuple V → List (Option V)
  cells_of t = copy_cells t.cell_num 0 t

  -- The tuple that the join shows for a row that it has cached.
  abbrev pub shown : List (List ℕ) → List (Option V) → Tuple V
  shown names row = cached_row_tuple table_name names row

  -- Between two rounds: all rows are cached, or the right child is closed, or it can be closed. The
  -- rounds hand out `out`.
  pub data Fresh (r : Side) (out : List (Tuple V)) : Type 0 where
    fresh_cached :
        r.right_cached ≡ true
        → r.round_done ≡ true
        → Closed r.right_state
        → map (shown r.right_field_names) r.right_rows ≡ out
        → Fresh r out
    fresh_closed :
        r.right_cached ≡ false
        → r.round_done ≡ true
        → r.right_closed ≡ true
        → Closed r.right_state
        → out ≡ rs
        → Fresh r out
    fresh_ended :
        r.right_cached ≡ false
        → r.round_done ≡ true
        → r.right_closed ≡ false
        → Closes right Closed r.right_state
        → out ≡ rs
        → Fresh r out

  -- Inside a round, with the tuples `left_over` to come.
  pub data InRound (r : Side) (out left_over : List (Tuple V)) : Type 0 where
    round_cached :
        r.right_cached ≡ true
        → r.round_done ≡ false
        → Closed r.right_state
        → map (shown r.right_field_names) r.right_rows ≡ out
        → left_over ≡ drop r.cached_idx out
        → InRound r out left_over
    round_child :
        r.right_cached ≡ false
        → r.round_done ≡ false
        → r.right_closed ≡ false
        → Closes right Closed r.right_state
        → Yields right Closed r.right_state left_over
        → out ≡ rs
        → InRound r out left_over

  -- What a step of the right side does when `left_over` is to come.
  pub data Gives (r : Side) (out : List (Tuple V)) : List (Tuple V) → Type 0 where
    gives_end : (r' : Side) → step_right r ≡ some (record_eof, r') → Fresh r' out → Gives r out []
    gives_tuple :
        {t : Tuple V} {ts : List (Tuple V)} (r' : Side)
        → step_right r ≡ some (success, r')
        → r'.right_tuple ≡ some t
        → InRound r' out ts
        → Gives r out (t ∷ ts)

  pub nth-drop-none :
      {A B : Type 0} (f : A → B) (xs : List A) (i : ℕ) → nth xs i ≡ none → drop i (map f xs) ≡ []
  nth-drop-none f [] zero e = refl
  nth-drop-none f [] (suc i) e = refl
  nth-drop-none f (x ∷ xs) zero e = cc
  nth-drop-none f (x ∷ xs) (suc i) e = nth-drop-none f xs i e

  pub nth-drop-some :
      {A B : Type 0} (f : A → B) (xs : List A) (i : ℕ) (x : A)
      → nth xs i ≡ some x
      → drop i (map f xs) ≡ f x ∷ drop (i + 1) (map f xs)
  nth-drop-some f [] i x e = cc
  nth-drop-some f (y ∷ xs) zero x e = cc
  nth-drop-some f (y ∷ xs) (suc i) x e =
      let q : suc (i + 1) ≡ suc i + 1 = omega arith in
      nth-drop-some f xs i x e ∙ ap (λ k. f x ∷ drop k (map f (y ∷ xs))) q

  pub next_cached :
      (r : Side) (idx : ℕ)
      → r.right_cached ≡ true
      → (if r.round_done then 0 else r.cached_idx) ≡ idx
      → step_right r ≡ cached_step left right is_table_scan table_name field_name r idx
  unfolding right_next
  next_cached r idx c d =
      ap
        (λ b.
          if b
          then cached_step left right is_table_scan table_name field_name r
              (if r.round_done then 0 else r.cached_idx)
          else right_next_child left right is_table_scan table_name field_name r)
        c
      ∙ ap (cached_step left right is_table_scan table_name field_name r) d

  -- A step over the cached rows, from the one at `idx` on.
  cached-Gives :
      (r : Side) (out : List (Tuple V)) (idx : ℕ)
      → r.right_cached ≡ true
      → (if r.round_done then 0 else r.cached_idx) ≡ idx
      → Closed r.right_state
      → map (shown r.right_field_names) r.right_rows ≡ out
      → Gives r out (drop idx out)
  unfolding cached_step
  cached-Gives r out idx c d k e = elim (Option-cases (nth r.right_rows idx)) [
    | inl n ↦
        subst (Gives r out)
          (sym
            (ap (drop idx) (sym e) ∙ nth-drop-none (shown r.right_field_names) r.right_rows idx n))
          (gives_end (record r { cached_idx = idx; round_done = true })
            (next_cached r idx c d ∙ rw (n, cached_step) refl) (fresh_cached c refl k e))
    | inr (row, n) ↦
        subst (Gives r out)
          (sym (
            ap (drop idx) (sym e)
            ∙ nth-drop-some (shown r.right_field_names) r.right_rows idx row n
            ∙ ap (λ o. shown r.right_field_names row ∷ drop (idx + 1) o) e))
          (gives_tuple
            (record r {
              cached_idx = idx + 1;
              round_done = false;
              right_tuple = some (shown r.right_field_names row);
            })
            (next_cached r idx c d ∙ rw (n, cached_step) refl) refl (round_cached c refl k e refl))
  ]

  next_child :
      (r s : Side)
      → r.right_cached ≡ false
      → (if r.round_done
          then restart_right left right is_table_scan table_name field_name r
          else some (success, r))
        ≡ some (success, s)
      → step_right r ≡ child_step left right is_table_scan table_name field_name s
  unfolding right_next right_next_child
  next_child r s c d =
      ap
        (λ b.
          if b
          then cached_step left right is_table_scan table_name field_name r
              (if r.round_done then 0 else r.cached_idx)
          else right_next_child left right is_table_scan table_name field_name r)
        c
      ∙ ap
          (λ m. m >>= λ restarted.
            if not (is_success restarted.0)
            then some restarted
            else child_step left right is_table_scan table_name field_name (restarted.1))
          d

  -- A step over the right child, which is open in `s` for the round.
  child-Gives :
      (r s : Side) (out ts : List (Tuple V))
      → step_right r ≡ child_step left right is_table_scan table_name field_name s
      → s.right_cached ≡ false
      → s.round_done ≡ false
      → s.right_closed ≡ false
      → Yields right Closed s.right_state ts
      → out ≡ rs
      → Gives r out ts
  unfolding child_step
  child-Gives r s out [] q c d f (finished s' e k) g =
      gives_end (record s { right_state = s'; round_done = true }) (q ∙ rw e refl)
        (fresh_ended c refl f k g)
  child-Gives r s out (t ∷ ts) q c d f (yielded s' e h k y) g =
      gives_tuple (record s { right_state = s'; right_tuple = right.current_tuple s' })
        (q ∙ rw e refl) h (round_child c d f k y g)

  reopened :
      (r : Side) (c s : right.State)
      → right.open_child c ≡ some (success, s)
      → reopen_right left right is_table_scan table_name field_name r (success, c)
        ≡ some (success, record r { right_state = s; right_closed = false; round_done = false })
  unfolding reopen_right
  reopened r c s e = rw e refl

  restarted :
      (r : Side) (c s : right.State)
      → r.round_done ≡ true
      → (if r.right_closed then some (success, r.right_state) else right.close r.right_state)
        ≡ some (success, c)
      → right.open_child c ≡ some (success, s)
      → (if r.round_done
          then restart_right left right is_table_scan table_name field_name r
          else some (success, r))
        ≡ some (success, record r { right_state = s; right_closed = false; round_done = false })
  unfolding restart_right
  restarted r c s d e f =
      ap
        (λ b.
          if b
          then restart_right left right is_table_scan table_name field_name r
          else some (success, r))
        d
      ∙ ap (λ m. m >>= reopen_right left right is_table_scan table_name field_name r) e
      ∙ reopened r c s f

  restart-Gives :
      (r : Side) (c : right.State) (out : List (Tuple V))
      → Produces right Closed rs
      → r.right_cached ≡ false
      → r.round_done ≡ true
      → (if r.right_closed then some (success, r.right_state) else right.close r.right_state)
        ≡ some (success, c)
      → Closed c
      → out ≡ rs
      → Gives r out out
  restart-Gives r c out p b d e k g =
      let (s, f, k', y) = p.opens c k in
      let r' : Side = record r { right_state = s; right_closed = false; round_done = false } in
      subst (Gives r out) (sym g)
        (child-Gives r r' out rs (next_child r r' b (restarted r c s d e f)) b refl refl y g)

  pub Fresh-Gives :
      (r : Side) (out : List (Tuple V)) → Produces right Closed rs → Fresh r out → Gives r out out
  Fresh-Gives r out p (fresh_cached c d k e) =
      cached-Gives r out 0 c (ap (λ b. if b then 0 else r.cached_idx) d) k e
  Fresh-Gives r out p (fresh_closed c d f k e) =
      restart-Gives r r.right_state out p c d
        (ap (λ b. if b then some (success, r.right_state) else right.close r.right_state) f) k e
  Fresh-Gives r out p (fresh_ended c d f (closes s e' k) e) =
      restart-Gives r s out p c d
        (ap (λ b. if b then some (success, r.right_state) else right.close r.right_state) f ∙ e') k
        e

  pub round-Gives : (r : Side) (out ts : List (Tuple V)) → InRound r out ts → Gives r out ts
  round-Gives r out ts (round_cached c d k e q) =
      subst (Gives r out) (sym q)
        (cached-Gives r out r.cached_idx c (ap (λ b. if b then 0 else r.cached_idx) d) k e)
  round-Gives r out ts (round_child c d f k y e) =
      child-Gives r r out ts
        (next_child r r c (
          ap
            (λ b.
              if b
              then restart_right left right is_table_scan table_name field_name r
              else some (success, r))
            d))
        c d f y e

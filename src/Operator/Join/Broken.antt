-- ===== src/Operator/Join/Broken.antt =====
-- A right child that fails while its rows are cached.
use miniob_basic.Base.{
  ℕ, zero, suc, ◌+◌, ◌<◌, ◌≡◌, ◌≢◌, refl, ap, sym, inl, inr, Option, ◌∙◌, true, false, some, List,
  [], ◌∷◌, ◌++◌, length, arith, map, drop, append_assoc, append-nil, if◌then◌else◌, Option-cases,
}
use miniob_basic.Rc.{Rc, success, record_eof, is_success}
use miniob_basic.Operator.Tuple.{Tuple, cached_row_tuple, copy_cells}
use miniob_basic.Operator.Stream.{PhysicalOperator}
use miniob_basic.Operator.Join.{
  NestedLoopJoin, cache_rows, cache_from, cache_right, try_cache_right, open_join, names_of,
  reset_right, right_next, cached_step, nth,
}
use miniob_basic.Operator.Join.Round.{Side, nth-drop-none, nth-drop-some, next_cached}

head_of : {A : Type 0} {x y : A} {xs ys : List A} → (x ∷ xs) ≡ (y ∷ ys) → x ≡ y
head_of h = cc

tail_of : {A : Type 0} {x y : A} {xs ys : List A} → (x ∷ xs) ≡ (y ∷ ys) → xs ≡ ys
tail_of h = cc

not_nil : {A : Type 0} {x : A} {xs : List A} → (x ∷ xs) ≢ []
not_nil h = cc

-- `next` hands out the tuples of the list and then fails.
pub data Breaks {T : Type 0} (op : PhysicalOperator T) (error : Rc)
    : op.State → List T → Type 0 where
  broken :
      {s : op.State} (s' c : op.State) (rc : Rc)
      → op.next s ≡ some (error, s')
      → op.close s' ≡ some (rc, c)
      → Breaks op error s []
  still :
      {s : op.State} {t : T} {ts : List T} (s' : op.State)
      → op.next s ≡ some (success, s')
      → op.current_tuple s' ≡ some t
      → Breaks op error s' ts
      → Breaks op error s (t ∷ ts)

module _ {V : Type 0} (left right : PhysicalOperator (Tuple V)) (table_name : List ℕ)
    (field_name : ℕ → List ℕ) (error : Rc) (fails : is_success error ≡ false) where
  cache_rows-Breaks :
      (fuel : ℕ) (s : right.State) (ts : List (Tuple V)) (rows : List (List (Option V)))
      → Breaks right error s ts
      → length ts < fuel
      → (s' : right.State) × (c : right.State) × (rc : Rc) × (cache_rows left right true table_name
            field_name fuel s rows
          ≡ some (s', rows ++ map (λ t. copy_cells t.cell_num 0 t) ts))
        × (right.close s' ≡ some (rc, c))
  unfolding cache_rows
  cache_rows-Breaks zero s ts rows y h = absurd (omega arith)
  cache_rows-Breaks (suc fuel) s [] rows (broken s' c rc e f) h =
      (s', c, rc, rw (e, fails) (ap (λ r. some (s', r)) (sym (append-nil rows))), f)
  cache_rows-Breaks (suc fuel) s (t ∷ ts) rows (still s' e f y) h =
      let (s'', c, rc, g, k) =
        cache_rows-Breaks fuel s' ts (rows ++ (copy_cells t.cell_num 0 t ∷ [])) y (omega arith) in
      (
        s'',
        c,
        rc,
        rw (e, f)
            (g
              ∙ ap (λ r. some (s'', r))
                  (append_assoc rows (copy_cells t.cell_num 0 t ∷ [])
                    (map (λ t'. copy_cells t'.cell_num 0 t') ts))),
        k,
      )

  abbrev Cached : Type 0
  Cached = Side left right true table_name field_name (λ s. Unit) []

  -- Before a round over rows that are cached.
  pub record IsReady (names : List (List ℕ)) (rows : List (List (Option V))) (r : Cached)
      : Type 0 where
    pub ready_cached : r.right_cached ≡ true
    pub ready_done : r.round_done ≡ true
    pub ready_names : r.right_field_names ≡ names
    pub ready_rows : r.right_rows ≡ rows

  -- A round hands out the tuples of the list and ends like one that has seen all rows, before a round
  -- over the same rows.
  pub data HandsOut (names : List (List ℕ)) (rows : List (List (Option V)))
      : Cached → List (Tuple V) → Type 0 where
    hands_end :
        {r : Cached} (r' : Cached)
        → right_next left right true table_name field_name r ≡ some (record_eof, r')
        → IsReady names rows r'
        → HandsOut names rows r []
    hands_tuple :
        {r : Cached} {t : Tuple V} {ts : List (Tuple V)} (r' : Cached)
        → right_next left right true table_name field_name r ≡ some (success, r')
        → r'.right_tuple ≡ some t
        → HandsOut names rows r' ts
        → HandsOut names rows r (t ∷ ts)

  round-HandsOut :
      (names : List (List ℕ)) (rows : List (List (Option V))) (ts : List (Tuple V)) (r : Cached)
      (idx : ℕ)
      → r.right_cached ≡ true
      → (if r.round_done then 0 else r.cached_idx) ≡ idx
      → r.right_field_names ≡ names
      → r.right_rows ≡ rows
      → drop idx (map (cached_row_tuple table_name r.right_field_names) r.right_rows) ≡ ts
      → HandsOut names rows r ts
  unfolding cached_step
  round-HandsOut names rows [] r idx c d n q e = elim (Option-cases (nth r.right_rows idx)) [
    | inl m ↦
        hands_end (record r { cached_idx = idx; round_done = true })
          (next_cached left right true table_name field_name (λ s. Unit) [] r idx c d
            ∙ rw (m, cached_step) refl)
          (record { ready_cached = c; ready_done = refl; ready_names = n; ready_rows = q })
    | inr (row, m) ↦
        let h =
          nth-drop-some left right true table_name field_name (λ s. Unit) []
            (cached_row_tuple table_name r.right_field_names) r.right_rows idx row m in
        absurd (not_nil (sym h ∙ e))
  ]
  round-HandsOut names rows (t ∷ ts) r idx c d n q e = elim (Option-cases (nth r.right_rows idx)) [
    | inl m ↦
        let h =
          nth-drop-none left right true table_name field_name (λ s. Unit) []
            (cached_row_tuple table_name r.right_field_names) r.right_rows idx m in
        absurd (not_nil (sym e ∙ h))
    | inr (row, m) ↦
        let h =
          sym (
            nth-drop-some left right true table_name field_name (λ s. Unit) []
              (cached_row_tuple table_name r.right_field_names) r.right_rows idx row m)
          ∙ e in
        let r' : Cached = record r {
          cached_idx = idx + 1;
          round_done = false;
          right_tuple = some (cached_row_tuple table_name r.right_field_names row);
        } in
        hands_tuple r'
          (next_cached left right true table_name field_name (λ s. Unit) [] r idx c d
            ∙ rw (m, cached_step) refl)
          (ap some (head_of h)) (round-HandsOut names rows ts r' (idx + 1) c refl n q (tail_of h))
  ]

  -- When the scan of the right table fails behind its first tuple and the left child opens, the join opens
  -- all the same. The rows that were read before the failure are cached, its round hands out these and no
  -- others, and ends as if they were all, before a next round over the same rows.
  pub open_join-Breaks :
      (fuel : ℕ) (j : NestedLoopJoin left right true table_name field_name) (s : right.State)
      (l : left.State) (t : Tuple V) (ts : List (Tuple V))
      → right.open_child j.right_side.right_state ≡ some (success, s)
      → Breaks right error s (t ∷ ts)
      → length ts < fuel
      → left.open_child j.left_state ≡ some (success, l)
      → (j' : NestedLoopJoin left right true table_name field_name) × (open_join left right true
            table_name field_name fuel j
          ≡ some (success, j'))
        × (j'.left_state ≡ l)
        × (j'.right_side.right_cached ≡ true)
        × (j'.right_side.round_done ≡ true)
        × (j'.right_side.right_rows ≡ map (λ t'. copy_cells t'.cell_num 0 t') (t ∷ ts))
        × HandsOut
            (names_of left right true table_name field_name t.cell_num 0)
            (map (λ t'. copy_cells t'.cell_num 0 t') (t ∷ ts))
            j'.right_side
            (map
              (cached_row_tuple table_name
                (names_of left right true table_name field_name t.cell_num 0))
              (map (λ t'. copy_cells t'.cell_num 0 t') (t ∷ ts)))
  unfolding open_join try_cache_right cache_right cache_from
  open_join-Breaks fuel j s l t ts o (still s' e f y) h p =
      let (s'', c, rc, g, k) = cache_rows-Breaks fuel s' ts (copy_cells t.cell_num 0 t ∷ []) y h in
      let names = names_of left right true table_name field_name t.cell_num 0 in
      let rows = map (λ t'. copy_cells t'.cell_num 0 t') (t ∷ ts) in
      let r : Cached = record (reset_right left right true table_name field_name j.right_side) {
        right_state = c;
        right_cached = true;
        right_field_names = names;
        right_rows = rows;
      } in
      (
        record j { left_state = l; right_side = r },
        rw (o, e, f, g, k, p) refl,
        refl,
        refl,
        refl,
        refl,
        round-HandsOut names rows (map (cached_row_tuple table_name names) rows) r 0 refl refl refl
            refl refl,
      )

-- ===== src/Operator/Join/Open.antt =====
-- Opening a join caches the rows of a right child that scans a table.
use miniob_basic.Base.{
  ℕ, zero, suc, ◌+◌, ◌<◌, ◌≤◌, ◌≡◌, refl, sym, ap, subst, ◌∙◌, Bool, true, not, Option, some, List,
  [], ◌∷◌, ◌++◌, if◌then◌else◌, length, arith, map, append_assoc, append-nil, Bool-cases, inl, inr,
}
use miniob_basic.Rc.{success}
use miniob_basic.Operator.Tuple.{Tuple, cached_row_tuple, copy_cells}
use miniob_basic.Operator.Stream.{
  PhysicalOperator, Closes, closes, Yields, finished, yielded, Produces,
}
use miniob_basic.Operator.Join.{
  NestedLoopJoin, names_of, cache_rows, cache_from, cache_right, try_cache_right, reset_right,
  open_join, join_operator,
}
use miniob_basic.Operator.Join.Round.{Side, Fresh, fresh_cached, fresh_closed}
use miniob_basic.Operator.Join.Steps.{JoinClosed, Closes-join, fresh_closes}
use miniob_basic.Operator.Join.Product.{product, Yields-product}

module _ {V : Type 0} (left right : PhysicalOperator (Tuple V)) (is_table_scan : Bool)
    (table_name : List ℕ) (field_name : ℕ → List ℕ) (LeftClosed : left.State → Type 0)
    (RightClosed : right.State → Type 0) (rs : List (Tuple V))
    (p : Produces right RightClosed rs) where
  -- The tuples of a round: copies of the rows when they are cached, named after the first.
  abbrev pub cached_tuples : List (Tuple V) → List (Tuple V)
  cached_tuples [] = []
  cached_tuples (t ∷ ts) =
      map
        (cached_row_tuple table_name
          (names_of left right is_table_scan table_name field_name t.cell_num 0))
        (map (λ t'. copy_cells t'.cell_num 0 t') (t ∷ ts))

  abbrev pub round_tuples : List (Tuple V)
  round_tuples = if is_table_scan then cached_tuples rs else rs

  cache_rows_lem :
      (fuel : ℕ) (s : right.State) (ts : List (Tuple V)) (rows : List (List (Option V)))
      → Yields right RightClosed s ts
      → length ts < fuel
      → (s' : right.State) × (cache_rows left right is_table_scan table_name field_name fuel s rows
          ≡ some (s', rows ++ map (λ t. copy_cells t.cell_num 0 t) ts))
        × Closes right RightClosed s'
  unfolding cache_rows
  cache_rows_lem zero s ts rows y h = absurd (omega arith)
  cache_rows_lem (suc fuel) s [] rows (finished s' e k) h =
      (s', rw e (ap (λ r. some (s', r)) (sym (append-nil rows))), k)
  cache_rows_lem (suc fuel) s (t ∷ ts) rows (yielded s' e f k y) h =
      let (s'', g, k') =
        cache_rows_lem fuel s' ts (rows ++ (copy_cells t.cell_num 0 t ∷ [])) y (omega arith) in
      (
        s'',
        rw (e, f)
            (g
              ∙ ap (λ r. some (s'', r))
                  (append_assoc rows (copy_cells t.cell_num 0 t ∷ [])
                    (map (λ t'. copy_cells t'.cell_num 0 t') ts))),
        k',
      )

  abbrev OpenedSide : Type 0
  OpenedSide = Side left right is_table_scan table_name field_name RightClosed rs

  abbrev FreshTuples : OpenedSide → List (Tuple V) → Type 0
  FreshTuples = Fresh left right is_table_scan table_name field_name RightClosed rs

  cache_right_lem :
      (fuel : ℕ) (r : OpenedSide) (ts : List (Tuple V)) (s : right.State)
      → rs ≡ ts
      → right.open_child r.right_state ≡ some (success, s)
      → Yields right RightClosed s ts
      → length ts < fuel + 1
      → (r' : OpenedSide) × (cache_right left right is_table_scan table_name field_name fuel
            (reset_right left right is_table_scan table_name field_name r)
          ≡ some r')
        × FreshTuples r' (cached_tuples ts)
  unfolding cache_right cache_from
  cache_right_lem fuel r [] s q o (finished s' e (closes c g k)) h = (
    record (reset_right left right is_table_scan table_name field_name r) { right_state = c },
    rw (o, e, g) refl,
    fresh_closed refl refl refl k (sym q),
  )
  cache_right_lem fuel r (t ∷ ts) s q o (yielded s' e f k' y) h =
      let (s'', g, k) =
        cache_rows_lem fuel s' ts (copy_cells t.cell_num 0 t ∷ []) y (omega arith) in
      elim k [
        | closes c g' k'' ↦ (
          record (reset_right left right is_table_scan table_name field_name r) {
            right_state = c;
            right_cached = true;
            right_field_names =
                names_of left right is_table_scan table_name field_name t.cell_num 0;
            right_rows = copy_cells t.cell_num 0 t ∷ map (λ t'. copy_cells t'.cell_num 0 t') ts;
          },
          rw (o, e, f, g, g') refl,
          fresh_cached refl refl k'' refl,
        )
      ]

  try_cache_right_lem :
      (fuel : ℕ) (r : OpenedSide)
      → RightClosed r.right_state
      → length rs < fuel + 1
      → (r' : OpenedSide) × (try_cache_right left right is_table_scan table_name field_name fuel
            (reset_right left right is_table_scan table_name field_name r)
          ≡ some r')
        × FreshTuples r' round_tuples
  unfolding try_cache_right
  try_cache_right_lem fuel r k h = elim (Bool-cases is_table_scan) [
    | inr e ↦ (
      reset_right left right is_table_scan table_name field_name r,
      ap
          (λ b.
            if not b
            then some (reset_right left right is_table_scan table_name field_name r)
            else cache_right left right is_table_scan table_name field_name fuel
                (reset_right left right is_table_scan table_name field_name r))
          e,
      fresh_closed refl refl refl k (ap (λ b. if b then cached_tuples rs else rs) e),
    )
    | inl e ↦
        let (s, o, k', y) = p.opens r.right_state k in
        let (r', g, f) = cache_right_lem fuel r rs s refl o y h in
        (
          r',
          ap
                (λ b.
                  if not b
                  then some (reset_right left right is_table_scan table_name field_name r)
                  else cache_right left right is_table_scan table_name field_name fuel
                      (reset_right left right is_table_scan table_name field_name r))
                e
              ∙ g,
          subst (FreshTuples r') (sym (ap (λ b. if b then cached_tuples rs else rs) e)) f,
        )
  ]

  -- A nested loop join of two children that produce tuples produces, in order, each tuple of the
  -- left one joined with each of the right one; those of a right child that scans a table are
  -- copies of its rows. The fuel is the number of rows at least.
  pub Produces-join :
      (ls : List (Tuple V)) (fuel : ℕ)
      → Produces left LeftClosed ls
      → length rs ≤ fuel
      → Produces
          (join_operator left right is_table_scan table_name field_name fuel)
          (JoinClosed left right is_table_scan table_name field_name LeftClosed RightClosed rs)
          (product ls round_tuples)
  unfolding open_join
  Produces-join ls fuel l h = record {
    opens = λ j k.
        let (r, e, f) = try_cache_right_lem fuel j.right_side (k.1) (omega arith) in
        let (s, e', c, y) = l.opens j.left_state (k.0) in
        let j' : NestedLoopJoin left right is_table_scan table_name field_name = record j {
          left_state = s;
          right_side = r;
        } in
        (
          j',
          rw (e, e') refl,
          Closes-join left right is_table_scan table_name field_name LeftClosed RightClosed rs fuel
              j' c
              (fresh_closes left right is_table_scan table_name field_name LeftClosed RightClosed rs
                r round_tuples f),
          Yields-product left right is_table_scan table_name field_name LeftClosed RightClosed rs
              round_tuples p fuel ls j' f y,
        );
  }

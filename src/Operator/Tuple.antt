-- ===== src/Operator/Tuple.antt =====
-- src/observer/sql/expr/tuple.h: a tuple is known by its methods. `none` is a cell that is not
-- assigned; names are rows of bytes.
use miniob_basic.Base.{
  ℕ, zero, suc, ◌+◌, ◌-◌, ◌<◌, ◌≡◌, refl, ap, ◌∙◌, Bool, true, false, not, ◌&&◌, Option, none, List,
  [], ◌∷◌, ltb, ◌==◌, if◌then◌else◌, length, arith,
}
use miniob_basic.Rc.{Rc, success, notfound}

abbrev pub same_str : List ℕ → List ℕ → Bool
same_str [] [] = true
same_str [] (y ∷ ys) = false
same_str (x ∷ xs) [] = false
same_str (x ∷ xs) (y ∷ ys) = (x == y) && same_str xs ys

abbrev pub is_notfound : Rc → Bool
is_notfound notfound = true
is_notfound rc = false

-- `TupleCellSpec`
pub record CellSpec : Type 0 where
  pub table_name : List ℕ
  pub field_name : List ℕ

pub record Tuple (V : Type 0) : Type 0 where
  pub cell_num : ℕ
  pub cell_at : ℕ → Rc × Option V
  pub find_cell : CellSpec → Rc × Option V

module _ {V : Type 0} where
  -- `JoinedTuple`, over the two tuples that it points to
  abbrev pub joined_tuple : Tuple V → Tuple V → Tuple V
  joined_tuple left right = record {
    cell_num = left.cell_num + right.cell_num;
    cell_at = λ index.
        if ltb index left.cell_num
        then left.cell_at index
        else if ltb index (left.cell_num + right.cell_num)
        then right.cell_at (index - left.cell_num)
        else (notfound, none);
    find_cell = λ spec.
        let (rc, value) = left.find_cell spec in
        if not (is_notfound rc) then (rc, value) else right.find_cell spec;
  }

  abbrev pub at_index : List (Option V) → ℕ → Rc × Option V
  at_index [] index = (notfound, none)
  at_index (v ∷ vs) zero = (success, v)
  at_index (v ∷ vs) (suc index) = at_index vs index

  -- The loop of `CachedRowTuple::find_cell` over the names of the fields.
  abbrev pub find_name : List (List ℕ) → ℕ → List (Option V) → List ℕ → Rc × Option V
  find_name [] i values field = (notfound, none)
  find_name (name ∷ names) i values field =
      if same_str field name then at_index values i else find_name names (i + 1) values field

  -- `CachedRowTuple` of join_physical_operator.h
  abbrev pub cached_row_tuple : List ℕ → List (List ℕ) → List (Option V) → Tuple V
  cached_row_tuple table_name field_names values = record {
    cell_num = length values;
    cell_at = at_index values;
    find_cell = λ spec.
        if not (same_str spec.table_name []) && not (same_str spec.table_name table_name)
        then (notfound, none)
        else find_name field_names 0 values spec.field_name;
  }

  -- The cells of a tuple from the i-th on, as the loops of `try_cache_right` copy them.
  abbrev pub copy_cells : ℕ → ℕ → Tuple V → List (Option V)
  copy_cells zero i t = []
  copy_cells (suc n) i t = (t.cell_at i).1 ∷ copy_cells n (i + 1) t

  at_index-copy_cells :
      (n i k : ℕ) (t : Tuple V)
      → k < n
      → at_index (copy_cells n i t) k ≡ (success, (t.cell_at (i + k)).1)
  at_index-copy_cells zero i k t h = absurd (omega arith)
  at_index-copy_cells (suc n) i zero t h = let q : i + 0 ≡ i = omega arith in rw q refl
  at_index-copy_cells (suc n) i (suc k) t h =
      let q : i + suc k ≡ i + 1 + k = omega arith in
      rw q (at_index-copy_cells n (i + 1) k t (omega arith))

  length-copy_cells : (n i : ℕ) (t : Tuple V) → length (copy_cells n i t) ≡ n
  length-copy_cells zero i t = refl
  length-copy_cells (suc n) i t = omega (arith, length-copy_cells n (i + 1) t)

  -- A copied row has the cells of the row that it was made of.
  pub cell_at-copy_cells :
      (table_name : List ℕ) (field_names : List (List ℕ)) (t : Tuple V) (index : ℕ)
      → index < t.cell_num
      → ((cached_row_tuple table_name field_names (copy_cells t.cell_num 0 t)).cell_num
          ≡ t.cell_num)
        × ((cached_row_tuple table_name field_names (copy_cells t.cell_num 0 t)).cell_at index
            ≡ (success, (t.cell_at index).1))
  cell_at-copy_cells table_name field_names t index h =
      let q : 0 + index ≡ index = omega arith in
      (
        length-copy_cells t.cell_num 0 t,
        at_index-copy_cells t.cell_num 0 index t h ∙ ap (λ k. (success, (t.cell_at k).1)) q,
      )

-- ===== src/Trx/Mvcc/Atomic.antt =====
-- A transaction that works and then rolls back, or commits.
use miniob_basic.Base.{
  ℕ, ◌≡◌, refl, ◌⊎◌, inl, inr, Bool, true, false, ◌&&◌, Option, none, some, List, [], ◌∷◌,
  if◌then◌else◌, Bool-cases,
}
use miniob_basic.Base.Int.{pos, neg, is_pos, eq_ℤ, eq_ℤ_iff}
use miniob_basic.Rc.{Rc, Run, is_success, is_success-true, is_success-false}
use miniob_basic.Trx.Store.{Key, Row, Setting}
use miniob_basic.Trx.Mvcc.{
  Trx, State, max_trx_id, visit_record, insert_operation, insert_record, delete_record, stops,
}
use miniob_basic.Trx.Mvcc.Deletion.{delete_record_lem, delete_record-stops}
use miniob_basic.Trx.Mvcc.Undo.{op_at, Distinct, IsShadow, insert-IsShadow, delete-IsShadow}

-- What a statement asks of its transaction.
pub data Request : Type 0 where
  put : ℕ → Row → Request
  -- whether the record that is deleted is that of a scan, with its data in the page
  drop : Key → (in_page : Bool) → Request

module _ (t : Setting) where
  open t.tables use {Store, row_at}

  abbrev without_rc : Run (Rc × State t × Trx) → Run (State t × Trx)
  without_rc none = none
  without_rc (some (rc, st, trx)) = some (st, trx)

  -- A deletion reads the record, as a scan for writing does, and goes on only if it may use it.
  unfoldable pub drop_row : State t → Trx → Key → Bool → Option Row → Run (State t × Trx)
  drop_row st trx key in_page none = some (st, trx)
  drop_row st trx key in_page (some row) =
      if is_success (visit_record trx row false)
      then without_rc (delete_record t st trx key in_page row)
      else some (st, trx)

  abbrev continue_with :
      Run (State t × Trx) → (State t → Trx → Run (State t × Trx)) → Run (State t × Trx)
  continue_with none f = none
  continue_with (some (st, trx)) f = f st trx

  unfoldable pub perform : State t → Trx → List Request → Run (State t × Trx)
  perform st trx [] = some (st, trx)
  perform st trx (put table_id row ∷ rest) =
      let (rc, st', trx') = insert_record t st trx table_id row in perform st' trx' rest
  perform st trx (drop key in_page ∷ rest) =
      continue_with (drop_row st trx key in_page (row_at st.store key))
        (λ st' trx'. perform st' trx' rest)

  -- What holds of a transaction at work, on tables that began as `base`.
  pub record IsWorking (base : Store) (st : State t) (trx : Trx) : Type 0 where
    pub distinct : Distinct trx.operations
    pub shadow : IsShadow t trx.trx_id base st.store trx.operations

  pub insert_record-IsWorking :
      (base : Store) (st : State t) (trx : Trx) (table_id : ℕ) (row : Row)
      → IsWorking base st trx
      → let (rc, st', trx') = insert_record t st trx table_id row in IsWorking base st' trx'
  unfolding insert_record insert_operation
  insert_record-IsWorking base st trx table_id row w =
      elim (Bool-cases (is_success (t.tables.insert_record st.store table_id stamped).0)) [
        | inl e ↦
            let (free, rows) =
              t.tables.insert_done st.store table_id stamped (is_success-true _ e) in
            let (fresh, distinct, shadow) =
              insert-IsShadow t trx.trx_id base st.store _ trx.operations _ stamped free refl rows
                w.distinct w.shadow in
            rw (e, fresh) (record { distinct = distinct; shadow = shadow })
        | inr e ↦ rw e (record {
          distinct = w.distinct;
          shadow = λ k.
              rw (t.tables.insert_failed st.store table_id stamped (is_success-false _ e) k)
                (w.shadow k);
        })
      ]
    where
      stamped : Row
      stamped = record row { begin_xid = neg trx.trx_id; end_xid = pos max_trx_id }

  -- Of a run that an `ASSERT` stops nothing is said.
  abbrev StillWorking : Store → Run (State t × Trx) → Type 0
  StillWorking base none = Unit
  StillWorking base (some (st, trx)) = IsWorking base st trx

  delete_record-IsWorking :
      (base : Store) (st : State t) (trx : Trx) (key : Key) (in_page : Bool) (row : Row)
      → row_at st.store key ≡ some row
      → IsWorking base st trx
      → StillWorking base (without_rc (delete_record t st trx key in_page row))
  delete_record-IsWorking base st trx key in_page row n w =
      elim (Bool-cases (eq_ℤ row.end_xid (pos max_trx_id))) [
        | inr e ↦
            unfold delete_record in
            elim (Bool-cases (stops t.debug (is_pos row.end_xid))) [
              | inl p ↦ rw p tt
              | inr p ↦ rw (p, e) w
            ]
        | inl e ↦
            newest ((eq_ℤ_iff row.end_xid (pos max_trx_id)).0 e) (Bool-cases (t.debug && in_page))
      ]
    where
      newest :
          row.end_xid ≡ pos max_trx_id
          → ((t.debug && in_page) ≡ true) ⊎ ((t.debug && in_page) ≡ false)
          → StillWorking base (without_rc (delete_record t st trx key in_page row))
      newest m (inr h) =
          let (s, done, rows) = delete_record_lem t st trx key in_page row n m h in
          let (distinct, shadow) =
            delete-IsShadow t trx.trx_id base st.store s trx.operations key row n m rows w.distinct
              w.shadow in
          rw done (record { distinct = distinct; shadow = shadow })
      newest m (inl h) = rw (delete_record-stops t st trx key in_page row h n m) tt

  drop_row-IsWorking :
      (base : Store) (st : State t) (trx : Trx) (key : Key) (in_page : Bool) (o : Option Row)
      → row_at st.store key ≡ o
      → IsWorking base st trx
      → StillWorking base (drop_row st trx key in_page o)
  unfolding drop_row
  drop_row-IsWorking base st trx key in_page none n w = w
  drop_row-IsWorking base st trx key in_page (some row) n w =
      elim (Bool-cases (is_success (visit_record trx row false))) [
        | inr e ↦ rw e w
        | inl e ↦ rw e (delete_record-IsWorking base st trx key in_page row n w)
      ]

  continue_with-IsWorking :
      (base : Store) (r : Run (State t × Trx)) (f : State t → Trx → Run (State t × Trx))
      → StillWorking base r
      → ((st : State t) (trx : Trx) → IsWorking base st trx → StillWorking base (f st trx))
      → StillWorking base (continue_with r f)
  continue_with-IsWorking base none f w h = tt
  continue_with-IsWorking base (some (st, trx)) f w h = h st trx w

  perform-IsWorking :
      (base : Store) (requests : List Request) (st : State t) (trx : Trx)
      → IsWorking base st trx
      → StillWorking base (perform st trx requests)
  unfolding perform
  perform-IsWorking base [] st trx w = w
  perform-IsWorking base (put table_id row ∷ rest) st trx w =
      perform-IsWorking base rest _ _ (insert_record-IsWorking base st trx table_id row w)
  perform-IsWorking base (drop key in_page ∷ rest) st trx w =
      continue_with-IsWorking base (drop_row st trx key in_page (row_at st.store key)) _
        (drop_row-IsWorking base st trx key in_page (row_at st.store key) refl w)
        (λ st' trx' w'. perform-IsWorking base rest st' trx' w')

  start-IsWorking : (st : State t) (trx : Trx) → trx.operations ≡ [] → IsWorking st.store st trx
  unfolding op_at
  start-IsWorking st trx e = record { distinct = rw e tt; shadow = λ k. rw e refl }

  pub perform-start :
      (requests : List Request) (st st' : State t) (trx trx' : Trx)
      → trx.operations ≡ []
      → perform st trx requests ≡ some (st', trx')
      → IsWorking st.store st' trx'
  perform-start requests st st' trx trx' e h =
      rw h at (perform-IsWorking st.store requests st trx (start-IsWorking st trx e))

-- ===== src/Trx/Mvcc/Deletion.antt =====
-- `MvccTrx::delete_record` of the newest version of a record, through a copy of it or in its page.
use miniob_basic.Base.{
  ℕ, zero, suc, ◌≡◌, refl, sym, ap, ◌∙◌, Bool, true, false, ◌&&◌, Option, none, some, ◌∷◌, arith,
  if◌then◌else◌,
}
use mathlib.Core.Bool.{false≢true}
use miniob_basic.Base.Int.{pos, neg, is_pos, eq_ℤ}
use miniob_basic.Rc.{success}
use miniob_basic.Trx.Store.{Key, same_key, same_key_refl, Row, Setting, delete_log}
use miniob_basic.Trx.Mvcc.{
  Trx, State, OperationType, max_trx_id, insert_operation, delete_record, delete_logged,
  mark_deleted, set_end,
}
use miniob_basic.Trx.Mvcc.Undo.{and_false}

module _ (t : Setting) where
  open t.tables use {Store, row_at}

  -- The visit of `delete_record`, behind its write through the caller's record.
  visited :
      (st : State t) (id : ℕ) (key : Key) (in_page : Bool) (row : Row)
      → row_at st.store key ≡ some row
      → row.end_xid ≡ pos max_trx_id
      → (t.debug && in_page) ≡ false
      → let marked = record row { end_xid = neg id } in
        (s : Store) × (t.tables.visit_record
            (set_end t in_page st.store key marked)
            key
            (mark_deleted t.debug id)
          ≡ some (success, s))
        × ((k : Key) → row_at s k ≡ (if same_key key k then some marked else row_at st.store k))
  visited st id key false row n m h =
      t.tables.visit_done st.store key (mark_deleted t.debug id) row
        (record row { end_xid = neg id }) n
        (rw (ap (λ x. eq_ℤ x (pos max_trx_id)) m, and_false t.debug))
  visited st id key true row n m h =
      let marked : Row = record row { end_xid = neg id } in
      let s1 = t.tables.set_row st.store key marked in
      let written = t.tables.set_done st.store key row marked n in
      let f : mark_deleted t.debug id marked ≡ some marked = rw (debug_of h) in
      let (s, done, rows) =
        t.tables.visit_done s1 key (mark_deleted t.debug id) marked marked
          (written key ∙ rw (same_key_refl key)) f in
      (s, done, λ k. rows k ∙ twice (same_key key k) _ _ _ (written k))
    where
      debug_of : {debug : Bool} → (debug && true) ≡ false → debug ≡ false
      debug_of {debug} e = ground arith

      twice :
          (b : Bool) (o o' x : Option Row)
          → o ≡ (if b then x else o')
          → (if b then x else o) ≡ (if b then x else o')
      twice true o o' x e = refl
      twice false o o' x e = e

  -- `delete_record` of the newest version of a record, unless its data lie in the page and the build has
  -- `DEBUG`.
  pub delete_record_lem :
      (st : State t) (trx : Trx) (key : Key) (in_page : Bool) (row : Row)
      → row_at st.store key ≡ some row
      → row.end_xid ≡ pos max_trx_id
      → (t.debug && in_page) ≡ false
      → (s : Store) × (delete_record t st trx key in_page row
          ≡ some (
            success,
            record st { store = s; log = delete_log trx.trx_id key ∷ st.log },
            record trx {
              operations =
                  insert_operation
                    (record { type = OperationType.delete; key = key })
                    trx.operations;
            },
          ))
        × ((k : Key)
            → row_at s k ≡ (
                if same_key key k
                then some (record row { end_xid = neg trx.trx_id })
                else row_at st.store k))
  unfolding delete_record delete_logged
  delete_record_lem st trx key in_page row n m h =
      let (s, done, rows) = visited st trx.trx_id key in_page row n m h in
      let p = ap is_pos m in
      let e = ap (λ x. eq_ℤ x (pos max_trx_id)) m in
      (s, rw (p, and_false t.debug, e, done, delete_logged) refl, rows)

  pub delete_record-stops :
      (st : State t) (trx : Trx) (key : Key) (in_page : Bool) (row : Row)
      → (t.debug && in_page) ≡ true
      → row_at st.store key ≡ some row
      → row.end_xid ≡ pos max_trx_id
      → delete_record t st trx key in_page row ≡ none
  unfolding delete_record delete_logged
  delete_record-stops st trx key false row d n m = absurd (false≢true (sym (and_false t.debug) ∙ d))
  delete_record-stops st trx key true row d n m =
      let marked : Row = record row { end_xid = neg trx.trx_id } in
      let s1 = t.tables.set_row st.store key marked in
      let written = t.tables.set_done st.store key row marked n key in
      let f : mark_deleted t.debug trx.trx_id marked ≡ none =
        rw (debug_of d, neg_max trx.trx_id) refl in
      let stopped =
        t.tables.visit_stopped s1 key (mark_deleted t.debug trx.trx_id) marked
          (written ∙ rw (same_key_refl key)) f in
      let p = ap is_pos m in
      let e = ap (λ x. eq_ℤ x (pos max_trx_id)) m in
      rw (p, and_false t.debug, e, stopped, delete_logged) refl
    where
      debug_of : {debug : Bool} → (debug && true) ≡ true → debug ≡ true
      debug_of {debug} e = ground arith

      neg_max : (id : ℕ) → eq_ℤ (neg id) (pos max_trx_id) ≡ false
      neg_max zero = refl
      neg_max (suc id) = refl

-- ===== src/Trx/Mvcc/Undo.antt =====
-- What the operations of a transaction have done to the rows, and how `rollback` takes it back.
use miniob_basic.Base.{
  ℕ, zero, suc, ◌≡◌, ◌≢◌, refl, sym, ap, ◌∙◌, ◌⊎◌, inl, inr, Bool, ◌&&◌, true, false, Option, none,
  some, List, [], ◌∷◌, arith, if◌then◌else◌, Bool-cases,
}
use miniob_basic.Base.Int.{pos, neg, eq_ℤ-refl}
use miniob_basic.Rc.{Rc, success}
use miniob_basic.Trx.Store.{Key, same_key, same_key_iff, same_key_refl, Row, Setting}
use miniob_basic.Trx.Mvcc.{
  OperationType, Operation, max_trx_id, has_operation, insert_operation, must_succeed, restore_end,
  rollback_operation, rollback_operations,
}

-- The operation on a record, if there is one.
unfoldable pub op_at : Key → List Operation → Option OperationType
op_at k [] = none
op_at k (o ∷ os) = if same_key o.key k then some o.type else op_at k os

-- No record has two operations.
abbrev pub Distinct : List Operation → Type 0
Distinct [] = Unit
Distinct (o ∷ os) = (has_operation o.key os ≡ false) × Distinct os

-- How a row differs from what it was before transaction `id` worked on it.
abbrev pub Undoes : ℕ → Option Row → Option Row → Option OperationType → Type 0
Undoes id before now none = now ≡ before
Undoes id before now (some OperationType.insert) =
    (before ≡ none) × ((r : Row) × (now ≡ some r) × (r.begin_xid ≡ neg id))
Undoes id before now (some OperationType.delete) =
    (r : Row) × (before ≡ some r)
    × (r.end_xid ≡ pos max_trx_id)
    × (now ≡ some (record r { end_xid = neg id }))
Undoes id before now (some OperationType.update) = ⊥
Undoes id before now (some OperationType.undefined) = ⊥

pub op_at-none : (k : Key) (os : List Operation) → has_operation k os ≡ false → op_at k os ≡ none
unfolding op_at has_operation
op_at-none k [] e = refl
op_at-none k (o ∷ os) e = elim (Bool-cases (same_key o.key k)) [
  | inl t ↦ cc (rw t at e)
  | inr f ↦ rw f (op_at-none k os (rw f at e))
]

has_operation-some :
    (k : Key) (os : List Operation) {y : OperationType}
    → op_at k os ≡ some y
    → has_operation k os ≡ true
unfolding op_at has_operation
has_operation-some k [] e = cc
has_operation-some k (o ∷ os) e = elim (Bool-cases (same_key o.key k)) [
  | inl t ↦ rw t
  | inr f ↦ rw f (has_operation-some k os (rw f at e))
]

pub and_false : (debug : Bool) → (debug && false) ≡ false
and_false true = refl
and_false false = refl

must_succeed-success :
    {S : Type 0} (debug : Bool) (a : Rc × S)
    → a.0 ≡ success
    → must_succeed debug (some a) ≡ some (success, a.1)
must_succeed-success debug a e =
    ap (λ rc. must_succeed debug (some (rc, a.1))) e ∙ rw (and_false debug)

same_row : {r r' : Row} → some r ≡ some r' → r ≡ r'
same_row h = cc

pub neg-ne-max : (id : ℕ) → neg id ≢ pos max_trx_id
neg-ne-max zero h = ground arith
neg-ne-max (suc id) h = ground arith

has_operation-none :
    (k : Key) (os : List Operation) → op_at k os ≡ none → has_operation k os ≡ false
unfolding op_at has_operation
has_operation-none k [] e = refl
has_operation-none k (o ∷ os) e = elim (Bool-cases (same_key o.key k)) [
  | inl t ↦ cc (rw t at e)
  | inr f ↦ rw f (has_operation-none k os (rw f at e))
]

module _ (t : Setting) where
  open t.tables use {Store, row_at}

  -- The rows of `s` are those of `base` under the operations of transaction `id`.
  abbrev pub IsShadow : ℕ → Store → Store → List Operation → Type 0
  IsShadow id base s os = (k : Key) → Undoes id (row_at base k) (row_at s k) (op_at k os)

  -- A store in which one row is back to what it was.
  restored :
      (id : ℕ) (base s s' : Store) (o : Operation) (os : List Operation)
      → has_operation o.key os ≡ false
      → IsShadow id base s (o ∷ os)
      → ((k : Key) → row_at s' k ≡ (if same_key o.key k then row_at base o.key else row_at s k))
      → IsShadow id base s' os
  unfolding op_at
  restored id base s s' o os d h e k = elim (Bool-cases (same_key o.key k)) [
    | inl t ↦
        let q : o.key ≡ k = (same_key_iff o.key k).0 t in
        rw (← q, op_at-none o.key os d) (e o.key ∙ rw (same_key_refl o.key))
    | inr f ↦ rw (e k, f) (rw f at (h k))
  ]

  rollback_operation_lem :
      (id : ℕ) (base s : Store) (type : OperationType) (key : Key)
      → Undoes id (row_at base key) (row_at s key) (some type)
      → (s' : Store) × (rollback_operation t id type key success s ≡ some (success, s'))
        × ((k : Key) → row_at s' k ≡ (if same_key key k then row_at base key else row_at s k))
  unfolding rollback_operation
  rollback_operation_lem id base s OperationType.insert key (b, (r, n, m)) =
      let (done, rows) = t.tables.delete_done s key r n in
      (
        (t.tables.delete_record s key).1,
        rw n (must_succeed-success t.debug _ done),
        λ k. rows k ∙ rw b,
      )
  rollback_operation_lem id base s OperationType.delete key (r, b, m, n) =
      let w : restore_end t.debug id (record r { end_xid = neg id }) ≡ some r =
        rw (eq_ℤ-refl (neg id), and_false t.debug)
          (ap (λ x. some (record r { end_xid = x })) (sym m)) in
      let (s', done, rows) =
        t.tables.visit_done s key (restore_end t.debug id) (record r { end_xid = neg id }) r n w in
      (s', rw (and_false t.debug, done, and_false t.debug) refl, λ k. rows k ∙ rw b)
  rollback_operation_lem id base s OperationType.update key h = absurd h
  rollback_operation_lem id base s OperationType.undefined key h = absurd h

  -- The loop of `rollback` ends with every row as it was.
  pub rollback_operations_lem :
      (id : ℕ) (base s : Store) (os : List Operation)
      → Distinct os
      → IsShadow id base s os
      → (s' : Store) × (rollback_operations t id os success s ≡ some (success, s'))
        × ((k : Key) → row_at s' k ≡ row_at base k)
  unfolding rollback_operations op_at
  rollback_operations_lem id base s [] d e = (s, refl, e)
  rollback_operations_lem id base s (o ∷ os) (f, d) e =
      let here : Undoes id (row_at base o.key) (row_at s o.key) (some o.type) =
        rw (same_key_refl o.key) at (e o.key) in
      let (s1, step, rows) = rollback_operation_lem id base s o.type o.key here in
      let (s2, rest, back) =
        rollback_operations_lem id base s1 os d (restored id base s s1 o os f e rows) in
      (s2, rw (step, rollback_operations) rest, back)

  -- A record that is not there has no operation, and was not there before.
  free_Undoes :
      (id : ℕ) (before : Option Row) (o : Option OperationType)
      → Undoes id before none o
      → (o ≡ none) × (before ≡ none)
  free_Undoes id before none h = (refl, sym h)
  free_Undoes id before (some OperationType.insert) (b, (r, n, m)) = cc
  free_Undoes id before (some OperationType.delete) (r, b, m, n) = cc
  free_Undoes id before (some OperationType.update) h = absurd h
  free_Undoes id before (some OperationType.undefined) h = absurd h

  -- An insertion that the table accepts.
  pub insert-IsShadow :
      (id : ℕ) (base s s' : Store) (os : List Operation) (key : Key) (row : Row)
      → row_at s key ≡ none
      → row.begin_xid ≡ neg id
      → ((k : Key) → row_at s' k ≡ (if same_key key k then some row else row_at s k))
      → Distinct os
      → IsShadow id base s os
      → (has_operation key os ≡ false)
        × Distinct ((record { type = OperationType.insert; key = key }) ∷ os)
        × IsShadow id base s' ((record { type = OperationType.insert; key = key }) ∷ os)
  unfolding op_at
  insert-IsShadow id base s s' os key row free m rows d e =
      let (none_at, absent) =
        free_Undoes id (row_at base key) (op_at key os) (rw free at (e key)) in
      let fresh = has_operation-none key os none_at in
      (
        fresh,
        (fresh, d),
        λ k. elim (Bool-cases (same_key key k)) [
          | inl t ↦
              let q : key ≡ k = (same_key_iff key k).0 t in
              rw (rows k, ← q, same_key_refl key) (absent, (row, refl, m))
          | inr f ↦ rw (rows k, f) (e k)
        ],
      )

  -- The mark of a deletion, by the operation that the record had.
  marked :
      (id : ℕ) (before now : Option Row) (o : Option OperationType) (row : Row)
      → now ≡ some row
      → row.end_xid ≡ pos max_trx_id
      → Undoes id before now o
      → ((o ≡ none)
          × Undoes id before (some (record row { end_xid = neg id })) (some OperationType.delete))
        ⊎ ((o ≡ some OperationType.insert)
            × Undoes id before (some (record row { end_xid = neg id })) (some OperationType.insert))
  marked id before now none row n m h = inl (refl, (row, sym h ∙ n, m, refl))
  marked id before now (some OperationType.insert) row n m (b, (r, n', m')) =
      let same : r ≡ row = same_row (sym n' ∙ n) in
      inr
        (refl, (b, (record row { end_xid = neg id }, refl, ap (λ x. x.begin_xid) (sym same) ∙ m')))
  marked id before now (some OperationType.delete) row n m (r, b, m', n') =
      let same : record r { end_xid = neg id } ≡ row = same_row (sym n' ∙ n) in
      absurd (neg-ne-max id (ap (λ x. x.end_xid) same ∙ m))
  marked id before now (some OperationType.update) row n m h = absurd h
  marked id before now (some OperationType.undefined) row n m h = absurd h

  pub delete-IsShadow :
      (id : ℕ) (base s s' : Store) (os : List Operation) (key : Key) (row : Row)
      → row_at s key ≡ some row
      → row.end_xid ≡ pos max_trx_id
      → ((k : Key)
          → row_at s' k
            ≡ (if same_key key k then some (record row { end_xid = neg id }) else row_at s k))
      → Distinct os
      → IsShadow id base s os
      → let os' = insert_operation (record { type = OperationType.delete; key = key }) os in
        Distinct os' × IsShadow id base s' os'
  unfolding op_at insert_operation
  delete-IsShadow id base s s' os key row n m rows d e =
      elim (marked id (row_at base key) (row_at s key) (op_at key os) row n m (e key)) [
        | inl (o, u) ↦
            let fresh = has_operation-none key os o in
            rw fresh (
              (fresh, d),
              λ k. elim (Bool-cases (same_key key k)) [
                | inl t ↦
                    let q : key ≡ k = (same_key_iff key k).0 t in
                    rw (rows k, ← q, same_key_refl key) u
                | inr f ↦ rw (rows k, f) (e k)
              ],
            )
        | inr (o, u) ↦ rw (has_operation-some key os o) (
          d,
          λ k. elim (Bool-cases (same_key key k)) [
            | inl t ↦
                let q : key ≡ k = (same_key_iff key k).0 t in
                rw (rows k, ← q, same_key_refl key, o) u
            | inr f ↦ rw (rows k, f) (e k)
          ],
        )
      ]

-- ===== src/Trx/Mvcc/Commit.antt =====
-- What `commit` makes of the rows on which a transaction has worked.
use miniob_basic.Base.{ℕ, ◌≡◌, Option, none, some}
use miniob_basic.Base.Int.{pos, neg}
use miniob_basic.Trx.Store.{Row}
use miniob_basic.Trx.Mvcc.{Trx, OperationType}

-- The mark of the transaction gives way to the number of the commit.
abbrev pub stamped : ℕ → Option OperationType → Option Row → Option Row
stamped xid (some OperationType.insert) (some r) = some (record r { begin_xid = pos xid })
stamped xid (some OperationType.delete) (some r) = some (record r { end_xid = pos xid })
stamped xid o row = row

-- The row bears the mark that the operation left on it.
abbrev Marked : ℕ → Option OperationType → Option Row → Type 0
Marked id none row = Unit
Marked id (some OperationType.insert) row = (r : Row) × (row ≡ some r) × (r.begin_xid ≡ neg id)
Marked id (some OperationType.delete) row = (r : Row) × (row ≡ some r) × (r.end_xid ≡ neg id)
Marked id (some OperationType.update) row = ⊥
Marked id (some OperationType.undefined) row = ⊥

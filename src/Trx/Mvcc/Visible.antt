-- ===== src/Trx/Mvcc/Visible.antt =====
-- Which records `visit_record` lets a transaction use.
use miniob_basic.Base.{ℕ, zero, suc, ◌≤◌, ◌<◌, ◌≡◌, ◌↔◌, Bool, List, arith, if◌then◌else◌, ◌==◌}
use miniob_basic.Base.Int.{ℤ, pos, neg}
use miniob_basic.Rc.{success, record_invisible, locked_concurrency_conflict}
use miniob_basic.Trx.Mvcc.{Trx, visit_record}

-- A record that was committed by `b` and deleted by `e` is there for the transactions from `b` to
-- `e`. One that transaction `d` is inserting is there for `d` alone. One that `d` is deleting is
-- not there for `d`; another transaction may read it and must not write it.
pub visit_record_lem :
    (trx : Trx) (b e d : ℕ) (x : ℤ) (payload : List ℕ) (readonly : Bool)
    → 0 < b
    → 0 < e
    → 0 < d
    → ((visit_record trx (record { begin_xid = pos b; end_xid = pos e; payload = payload }) readonly
          ≡ success)
        ↔ ((b ≤ trx.trx_id) × (trx.trx_id ≤ e)))
      × (visit_record trx (record { begin_xid = neg d; end_xid = x; payload = payload }) readonly
          ≡ (if d == trx.trx_id then success else record_invisible))
      × (visit_record trx
            (record { begin_xid = pos b; end_xid = neg d; payload = payload })
            readonly
          ≡ (if d == trx.trx_id
              then record_invisible
              else (if readonly then success else locked_concurrency_conflict)))
unfolding visit_record
visit_record_lem trx (suc b) (suc e) (suc d) x payload readonly hb he hd =
    (ground arith, ground arith, ground arith)
visit_record_lem trx zero e d x payload readonly hb he hd = absurd (omega arith)
visit_record_lem trx (suc b) zero d x payload readonly hb he hd = absurd (omega arith)
visit_record_lem trx (suc b) (suc e) zero x payload readonly hb he hd = absurd (omega arith)

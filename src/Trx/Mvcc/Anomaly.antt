-- ===== src/Trx/Mvcc/Anomaly.antt =====
-- Where the code falls short of snapshot reads: two marks that say less than was done.
use miniob_basic.Base.{ℕ, zero, suc, ◌<◌, ◌≡◌, ◌≢◌, Bool, true, some, List, arith}
use miniob_basic.Base.Int.{pos, neg}
use miniob_basic.Rc.{success, record_invisible}
use miniob_basic.Trx.Store.{Row}
use miniob_basic.Trx.Mvcc.{Trx, max_trx_id, visit_record, mark_deleted}
use miniob_basic.Trx.Mvcc.Undo.{and_false}

-- A record that was committed after a reader began is not there for the reader. Once some other
-- transaction has marked it for deletion, it is.
pub visit_record-appears :
    (debug : Bool) (reader : Trx) (b d : ℕ) (payload : List ℕ)
    → 0 < d
    → reader.trx_id < b
    → d ≢ reader.trx_id
    → let row : Row = record { begin_xid = pos b; end_xid = pos max_trx_id; payload = payload } in
      (visit_record reader row true ≡ record_invisible)
      × (mark_deleted debug d row ≡ some (record row { end_xid = neg d }))
      × (visit_record reader (record row { end_xid = neg d }) true ≡ success)
unfolding visit_record
visit_record-appears debug reader zero d payload hd hb ne = absurd (omega arith)
visit_record-appears debug reader (suc b) zero payload hd hb ne = absurd (omega arith)
visit_record-appears debug reader (suc b) (suc d) payload hd hb ne =
    (ground arith, rw (and_false debug), ground arith)

-- ===== src/Trx/Kit/Tests.antt =====
-- A transaction of the log with number 5, and a new one behind it.
use miniob_basic.Base.{◌≡◌, refl, some, [], ◌∷◌}
use miniob_basic.Base.Int.{pos, negsuc}
use miniob_basic.Trx.Kit.{MvccTrxKit, create_trx, create_recovering, find_trx, start_trx}
use miniob_basic.Trx.Kit.Fresh.{Reachable, at_start, created, recovered}

abbrev restarted : MvccTrxKit
restarted = record {
  current_trx_id = 5;
  trxes =
      record { address = 100; trx_id = pos 5 } ∷ record { address = 200; trx_id = negsuc 0 } ∷ [];
}

restarted-Reachable : Reachable restarted
unfolding create_trx create_recovering
restarted-Reachable = created 200 (recovered 100 5 at_start)

start_next :
    find_trx (start_trx restarted 200) (pos 6) ≡ some record { address = 200; trx_id = pos 6 }
unfolding find_trx start_trx
start_next = refl

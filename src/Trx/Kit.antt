-- ===== src/Trx/Kit.antt =====
-- `MvccTrxKit`, mvcc_trx.cpp: the transactions that are there, and the counter of their numbers.
-- A transaction is an object, known by its address, with the number that it has, -1 before it
-- starts. The counter stays below the largest `int`.
pub mod Fresh
mod Tests
use miniob_basic.Base.{
  ℕ, zero, suc, ◌+◌, ◌≡◌, Bool, true, false, Option, none, some, List, [], ◌∷◌, ◌++◌, ltb, ◌==◌,
  if◌then◌else◌,
}
use miniob_basic.Base.Int.{ℤ, pos, negsuc, eq_ℤ}

pub record TrxObject : Type 0 where
  pub address : ℕ
  pub trx_id : ℤ

pub record MvccTrxKit : Type 0 where
  pub current_trx_id : ℕ
  pub trxes : List TrxObject

-- `create_trx(CLogManager *)`
pub create_trx : MvccTrxKit → ℕ → MvccTrxKit
create_trx kit address = record kit {
  trxes = kit.trxes ++ (record { address = address; trx_id = negsuc 0 } ∷ []);
}

-- `create_trx(int32_t)`, for a transaction of the log
pub create_recovering : MvccTrxKit → ℕ → ℕ → MvccTrxKit
create_recovering kit address trx_id = record {
  trxes = kit.trxes ++ (record { address = address; trx_id = pos trx_id } ∷ []);
  current_trx_id = if ltb kit.current_trx_id trx_id then trx_id else kit.current_trx_id;
}

abbrev pub erase_trx : ℕ → List TrxObject → List TrxObject
erase_trx address [] = []
erase_trx address (t ∷ ts) = if t.address == address then ts else t ∷ erase_trx address ts

pub destroy_trx : MvccTrxKit → ℕ → MvccTrxKit
destroy_trx kit address = record kit { trxes = erase_trx address kit.trxes }

abbrev pub find_in : ℤ → List TrxObject → Option TrxObject
find_in trx_id [] = none
find_in trx_id (t ∷ ts) = if eq_ℤ t.trx_id trx_id then some t else find_in trx_id ts

pub find_trx : MvccTrxKit → ℤ → Option TrxObject
find_trx kit trx_id = find_in trx_id kit.trxes

abbrev pub set_trx_id : ℕ → ℤ → List TrxObject → List TrxObject
set_trx_id address trx_id [] = []
set_trx_id address trx_id (t ∷ ts) =
    if t.address == address
    then record t { trx_id = trx_id } ∷ ts
    else t ∷ set_trx_id address trx_id ts

-- The transaction at `address` starts: `start_if_need` gives it the next number.
pub start_trx : MvccTrxKit → ℕ → MvccTrxKit
start_trx kit address = record {
  current_trx_id = kit.current_trx_id + 1;
  trxes = set_trx_id address (pos (kit.current_trx_id + 1)) kit.trxes;
}

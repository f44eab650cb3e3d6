-- ===== src/Record/Rid.antt =====
-- `struct RID`, src/observer/storage/record/record.h. Page and slot numbers are not negative.
use miniob_basic.Base.{ℕ}

pub record Rid : Type 0 where
  pub page_num : ℕ
  pub slot_num : ℕ

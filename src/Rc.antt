-- ===== src/Rc.antt =====
-- The return codes, src/observer/common/rc.h, and what an operation hands back.
use mathlib.Core.Path.{◌≡◌, refl}
use mathlib.Core.Logic.{◌≢◌}
use mathlib.Core.Option.{Option}
use mathlib.Core.Bool.{Bool, true, false, not}

pub data Rc : Type 0 where
  success invalid_argument unimplenment sql_syntax internal nomem notfound empty : Rc
  bufferpool_open bufferpool_nobuf bufferpool_invalid_page_num record_openned : Rc
  record_invalid_rid record_invalid_key record_duplicate_key record_nomem record_eof : Rc
  record_not_exist record_invisible schema_db_exist schema_db_not_exist schema_db_not_opened : Rc
  schema_table_not_exist schema_table_exist schema_field_not_exist schema_field_missing : Rc
  schema_field_type_mismatch schema_index_name_repeat ioerr_read ioerr_write ioerr_access : Rc
  ioerr_open ioerr_close ioerr_seek ioerr_too_long ioerr_sync locked_unlock locked_need_wait : Rc
  locked_concurrency_conflict file_exist file_not_exist file_name file_bound file_create : Rc
  file_open file_not_opened file_close file_remove file_seek file_read file_write : Rc
  variable_not_exists variable_not_valid logbuf_full : Rc

abbrev pub is_success : Rc → Bool
is_success success = true
is_success rc = false

-- `OB_FAIL`
abbrev pub ob_fail : Rc → Bool
ob_fail rc = not (is_success rc)

-- `none` is a run that an `ASSERT` stops, or that touches memory outside the program's own.
abbrev pub Run {ℓ} : Type ℓ → Type ℓ
Run A = Option A

pub is_success-true : (rc : Rc) → is_success rc ≡ true → rc ≡ success
is_success-true success h = refl
is_success-true rc h = cc

pub is_success-false : (rc : Rc) → is_success rc ≡ false → rc ≢ success
is_success-false success h e = cc
is_success-false rc h e = cc

-- ===== src/Base/Status.antt =====
-- The status codes of src/common/errordef.h. The functions of the library return an int32_t that is
-- EOK, an error code or, where it says so, a length.
use Prim.Native.Nat.{ℕ}
use mathlib.Core.Bool.{Bool, true, false}

pub data Status : Type 0 where
  eok efail e_invalid e_parm e_srch e_empty e_io e_align e_crc e_nomem e_busy : Status
  e_inval e_timeout e_noimpl e_unexp e_fmt e_full e_notfound e_eof e_bof e_canceled : Status
  e_edeleted e_version e_exist e_notavail e_validationrange e_validationfunction : Status
  e_entrynotfound e_auth e_notallow e_addrrange e_corrupt e_file e_validation : Status
  e_connection e_unknown : Status

-- The code without its sign: every error is negative.
pub magnitude : Status → ℕ
magnitude eok = 0
magnitude efail = 1
magnitude e_invalid = 4302
magnitude e_parm = 4303
magnitude e_srch = 4304
magnitude e_empty = 4305
magnitude e_io = 4306
magnitude e_align = 4307
magnitude e_crc = 4308
magnitude e_nomem = 4309
magnitude e_busy = 4310
magnitude e_inval = 4311
magnitude e_timeout = 4312
magnitude e_noimpl = 4313
magnitude e_unexp = 4314
magnitude e_fmt = 4315
magnitude e_full = 4316
magnitude e_notfound = 4317
magnitude e_eof = 4318
magnitude e_bof = 4319
magnitude e_canceled = 4320
magnitude e_edeleted = 4321
magnitude e_version = 4322
magnitude e_exist = 4323
magnitude e_notavail = 4324
magnitude e_validationrange = 4325
magnitude e_validationfunction = 4326
magnitude e_entrynotfound = 4327
magnitude e_auth = 4328
magnitude e_notallow = 4329
magnitude e_addrrange = 4330
magnitude e_corrupt = 4331
magnitude e_file = 4332
magnitude e_validation = 4333
magnitude e_connection = 4334
magnitude e_unknown = 4363

-- `status == EOK`
abbrev pub is_eok : Status → Bool
is_eok eok = true
is_eok _ = false

-- An int32_t that is a length, or the status of a failure.
pub data Reply : Type 0 where
  len : ℕ → Reply
  failed : Status → Reply

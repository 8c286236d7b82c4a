-- ===== src/Outcome.antt =====
-- How a method ends: `recAlarm` of coreApp/src/psc/device.h and coreApp/src/devPSCCtrl.cpp, and the
-- other exceptions of the driver, as values that carry the object as the throw left it.
use pscdrv.Common.{String}

-- The alarm constants of the record support library that the driver names.
pub data Status : Type 0 where
  comm_alarm soft_alarm read_alarm write_alarm udf_alarm : Status

pub data Severity : Type 0 where
  major_alarm invalid_alarm : Severity

-- `std::runtime_error` with its text, `std::bad_alloc`, and `recAlarm` with its fields.
pub data Error : Type 0 where
  rec_alarm : Status → Severity → Error
  runtime_error : String → Error
  bad_alloc : Error

-- `recAlarm::recAlarm()`
abbrev pub default_alarm : Error
default_alarm = rec_alarm comm_alarm invalid_alarm

-- `aborted`: an `assert` fails. `faulted`: a null pointer is used.
pub data Result (S : Type 0) : Type 0 where
  ok : S → Result S
  threw : Error → S → Result S
  aborted faulted : Result S

infixl 5 ◌>>=◌
abbrev pub ◌>>=◌ : {S : Type 0} → Result S → (S → Result S) → Result S
ok s >>= f = f s
threw e s >>= f = threw e s
aborted >>= f = aborted
faulted >>= f = faulted

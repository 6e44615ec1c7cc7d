-- ===== src/Cydex.antt =====
-- The codes of the package `cydex` that the program compares. The package is not part of the
-- repository; its codes are read as data types, since Go itself demands that the cases of a
-- `switch` over them are different, and an `int` that is none of them is `unknown`.
use codemigrate.Prelude.{ℕ, Bool, true, false}

-- `cydex.UPLOAD`, `cydex.DOWNLOAD`.
pub data TransferType : Type 0 where
  upload download : TransferType
  unknown : ℕ → TransferType

abbrev pub is_upload : TransferType → Bool
is_upload upload = true
is_upload _ = false

abbrev pub is_download : TransferType → Bool
is_download download = true
is_download _ = false

-- `cydex.TRANSFER_STATE_IDLE`, which is also the zero value of a new row, `_DOING`, `_PAUSE`, `_DONE`.
pub data TransferState : Type 0 where
  idle doing pause done : TransferState

abbrev pub state_eq : TransferState → TransferState → Bool
state_eq idle idle = true
state_eq doing doing = true
state_eq pause pause = true
state_eq done done = true
state_eq _ _ = false

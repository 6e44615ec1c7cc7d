-- ===== src/Models.antt =====
-- pkg/models/*.go: the rows of packages, files, segments, jobs and job details. A time is a number
-- of ticks, and 0 is Go's zero time. Columns that no modelled function reads are left out.
pub mod Engine
use codemigrate.Prelude.{ℕ, String, List, [], Option, none, some, Bool, false}
use codemigrate.Prelude.GoMap.{GoMap}
use codemigrate.Prelude.Int.{ℤ, pos}
use codemigrate.Cydex.{TransferType, TransferState, idle, done, pause}

pub record File : Type 0 where
  pub fid : String
  pub pid : String
  pub name : String
  pub size : ℕ
  pub mode : ℕ
  pub num_segs : ℕ
  pub storage : String
  pub flag : ℕ

pub record SegRow : Type 0 where
  pub sid : String
  pub state : TransferState
  pub size : ℕ

-- `mtu_size` is that of `MetaData`, if there are any; without `has_files` the list of files is nil.
pub record Pkg : Type 0 where
  pub pid : String
  pub title : String
  pub notes : String
  pub num_files : ℕ
  pub size : ℕ
  pub encryption_type : ℕ
  pub mtu_size : Option ℕ
  pub files : List File
  pub has_files : Bool

pub record JobDetail : Type 0 where
  pub job_id : String
  pub fid : String
  pub file : Option File
  pub start_time : ℕ
  pub finish_time : ℕ
  pub finished_size : ℕ
  pub state : TransferState
  pub num_finished_segs : ℕ
  pub checked : ℕ
  pub update_at : ℕ
  pub bitrate : ℕ
  pub cur_seg_size : ℕ
  pub err307_times : ℕ

-- A detail as Go's composite literal `&JobDetail{JobId: …, Fid: …}` makes it.
abbrev pub new_job_detail : String → String → JobDetail
new_job_detail job_id fid = record {
  job_id = job_id;
  fid = fid;
  file = none;
  start_time = 0;
  finish_time = 0;
  finished_size = 0;
  state = idle;
  num_finished_segs = 0;
  checked = 0;
  update_at = 0;
  bitrate = 0;
  cur_seg_size = 0;
  err307_times = 0;
}

-- The fields that `Reset` sets, before it saves the row.
unfoldable pub reset : JobDetail → JobDetail
reset jd = record jd {
  state = idle;
  start_time = 0;
  finish_time = 0;
  finished_size = 0;
  num_finished_segs = 0;
  checked = 0;
}

-- A nil entry of `Details` is `none`, and so is a package that has not been read.
pub record Job : Type 0 where
  pub job_id : String
  pub typ : TransferType
  pub pid : String
  pub uid : String
  pub finished_times : ℕ
  pub state : TransferState
  pub details : GoMap String (Option JobDetail)
  pub num_unfinished_details : ℤ
  pub is_cached : Bool
  pub pkg : Option Pkg

abbrev pub new_job : String → String → String → TransferType → Job
new_job job_id uid pid typ = record {
  job_id = job_id;
  typ = typ;
  pid = pid;
  uid = uid;
  finished_times = 0;
  state = idle;
  details = [];
  num_unfinished_details = pos 0;
  is_cached = false;
  pkg = none;
}

-- ===== src/TaskTypes.antt =====
-- The data that the task manager, the job manager and the statistics share: the task of
-- transfer/task/task.go over its row of transfer/models/task.go, and the state that a node reports.
use codemigrate.Prelude.{ℕ, String, List, Bool, ◌==◌, string_eq, not}
use codemigrate.Cydex.{TransferType, TransferState}

-- `transfer.TaskState`, as far as it is read.
pub record TaskState : Type 0 where
  pub task_id : String
  pub sid : String
  pub state : String
  pub bitrate : ℕ
  pub total_bytes : ℕ
  pub real_total_bytes : ℕ
  pub total_traffic : ℕ

-- `bitrates` is the ring of samples, `bitrates_cnt` the `uint32` count of all that came.
pub record Task : Type 0 where
  pub task_id : String
  pub typ : TransferType
  pub job_id : String
  pub pid : String
  pub fid : String
  pub node_id : String
  pub zone_id : String
  pub num_segs : ℕ
  pub peer_ip : String
  pub allocated_bitrate : ℕ
  pub min_bitrate : ℕ
  pub avg_bitrate : ℕ
  pub max_bitrate : ℕ
  pub state : TransferState
  pub total_traffic : ℕ
  pub bitrates : List ℕ
  pub bitrates_cnt : ℕ
  pub timestamp : ℕ

unfoldable pub is_dispatched : Task → Bool
is_dispatched t = not (t.node_id == "")

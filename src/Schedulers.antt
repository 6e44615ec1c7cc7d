-- ===== src/Schedulers.antt =====
-- transfer/task/restrict.go, nas_rr.go, file.go, rr_upload.go and default_scheduler.go: which node gets
-- a task. A node is its pointer into the heap of the node manager; times are in seconds.
pub mod Restrict
pub mod Nas
pub mod Default
pub mod Routing
use codemigrate.Prelude.{ℕ, String, List, Option, Bool, leb, ltb}
use codemigrate.Nodes.{NodeManager, node_at}

-- `TASK_RESTRICT_NONE`, `_BY_PID`, `_BY_FID`; any other number is unknown.
pub data RestrictMode : Type 0 where
  no_restrict by_pid by_fid : RestrictMode
  other_mode : ℕ → RestrictMode

pub record UploadReq : Type 0 where
  pub task_id : String
  pub pid : String
  pub fid : String
  pub file_storage : String
  pub size : ℕ
  pub left_pkg_size : ℕ
  pub file_size : ℕ
  pub restrict_mode : RestrictMode
  pub job_id : String
  pub sid_list : List String
  pub ip : String

unfoldable pub get_req_size : UploadReq → ℕ
get_req_size req = elim req.restrict_mode [
  | no_restrict ↦ req.size
  | by_fid ↦ req.file_size
  | by_pid ↦ req.left_pkg_size
  | other_mode n ↦ 0
]

-- `filteUnitBySize` of rr_upload.go.
unfoldable pub filte_unit_by_size : {Db : Type 0} → NodeManager Db → UploadReq → ℕ → Bool
filte_unit_by_size nm req u = leb (get_req_size req) (node_at nm u).info.free_storage

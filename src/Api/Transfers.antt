-- ===== src/Api/Transfers.antt =====
-- api/controllers/transfer.go: what requests for the transfer of segments share. The reply of the node
-- that gets the task is an argument, and so is where clients reach a node.
pub mod Uploads
pub mod Downloads
pub mod Requests
pub mod Rights
pub mod Repeats
use Prim.Native.String.{len, slice}
use codemigrate.Prelude.{
  ℕ, ◌-◌, ◌+◌, ◌%◌, ◌^◌, String, List, [], ◌∷◌, Option, none, some, Bool, true, false, ◌==◌, nat_eq,
  string_eq, ltb, ◌&&◌, if◌then◌else◌,
}
use codemigrate.Prelude.GoMap.{get}
use codemigrate.Cydex.{TransferState, state_eq, done, upload}
use codemigrate.Errors.{Result, ok, err}
use codemigrate.TaskTypes.{Task}
use codemigrate.Models.{File, SegRow, Pkg, Job, JobDetail}
use codemigrate.Models.Engine.{Engine, or_missing, or_nil, get_pkg, get_job_row}
use codemigrate.Nodes.{Outcome, returns, panics, and_then}
use codemigrate.Jobs.{JobManager, hash_job}
use codemigrate.Jobs.Lifecycle
use codemigrate.Jobs.Lifecycle.{Ending, nil_panic}
use codemigrate.Jobs.Handlers
use codemigrate.Tasks.{flat}
use codemigrate.Tasks.Dispatch.{System, Answer}
use codemigrate.Api.{
  UserLevel, common, upload_only, download_only, Code, fine, file_not_existed, inner_server,
  ApiEngine, FileFlags, Site,
}

unfoldable pub can_upload : UserLevel → Bool
can_upload common = true
can_upload upload_only = true
can_upload _ = false

unfoldable pub can_download : UserLevel → Bool
can_download common = true
can_download download_only = true
can_download _ = false

-- `cydex.TransferReq`; `from` is "sender" or "receiver".
pub record TransferReq : Type 0 where
  pub fid : String
  pub from : String
  pub seg_ids : List String
  pub finished_size : ℕ
  pub num_finished_segs : ℕ
  pub max_bitrate : ℕ

pub record TransferRsp : Type 0 where
  pub error : Code
  pub host : String
  pub port : ℕ
  pub recomend_bitrate : ℕ
  pub segs : List SegRow

abbrev pub new_transfer_rsp : TransferRsp
new_transfer_rsp = record { error = fine; host = ""; port = 0; recomend_bitrate = 0; segs = [] }

abbrev pub refusal : Code → TransferRsp
refusal c = record new_transfer_rsp { error = c }

-- The response of a node to a task; the fields but the first are those of its body, if it has one.
pub record TaskReply : Type 0 where
  pub is_ok : Bool
  pub has_body : Bool
  pub port : ℕ
  pub recomend_bitrate : ℕ
  pub file_storage : String
  pub sid_list : List String

abbrev pub to_answer : Result TaskReply → Result Answer
to_answer (err e) = err e
to_answer (ok r) = ok (record {
  is_ok = r.is_ok;
  recomend_bitrate = if r.has_body then some r.recomend_bitrate else none;
})

-- The row's `PublicAddr` and the connection's `Host` of a node.
pub record Address : Type 0 where
  pub public_addr : Option String
  pub host : String

abbrev pub own_host : String → String
own_host host = if host == "127.0.0.1" then "" else host

unfoldable pub get_host : Address → String
get_host a = elim a.public_addr [
  | none ↦ own_host a.host
  | some addr ↦ if addr == "" then own_host a.host else addr
]

-- A bitrate under the limit of the account, where 0 is no limit.
abbrev pub limited : ℕ → ℕ → ℕ
limited max_bps b = if ltb 0 max_bps && ltb max_bps b then max_bps else b

pub record FileDetail : Type 0 where
  pub file_name : String
  pub file_flag : ℕ
  pub file_mode : ℕ
  pub file_size : ℕ
  pub encryption_type : ℕ
  pub seg_cnt : ℕ
  pub mtu_size : Option ℕ
  pub seg_per_size : ℕ
  pub seg_start_no : ℕ

-- Who sends a request, and the answers that it will meet: `reply` is what `SendRequestSync` returns from
-- a node, `task_id` what `GenerateTaskId` does; the limits of the account are 0 if there are none.
pub record Caller : Type 0 where
  pub now : ℕ
  pub uid : String
  pub ip : String
  pub level : UserLevel
  pub max_upload : ℕ
  pub max_download : ℕ
  pub task_id : String
  pub reply : ℕ → Result TaskReply
  pub address : ℕ → Address

abbrev digits : List (String × ℕ)
digits =
    ("1", 1)
    ∷ ("2", 2)
    ∷ ("3", 3)
    ∷ ("4", 4)
    ∷ ("5", 5)
    ∷ ("6", 6)
    ∷ ("7", 7)
    ∷ ("8", 8)
    ∷ ("9", 9)
    ∷ []

-- `strconv.Atoi` of one character, with its error dropped.
abbrev digit_value : String → ℕ
digit_value s = elim (get digits s) [ none ↦ 0 | some d ↦ d ]

-- What the job manager does when it is told of the new task.
abbrev pub told : {Db : Type 0} → Ending (JobManager Db) → Outcome (JobManager Db)
told (Lifecycle.returns jm) = returns jm
told nil_panic = panics

-- The end of `getFileDetail`: the first segment gives the size and the first number.
unfoldable pub detail_of : File → Pkg → List SegRow → Outcome (Option FileDetail)
detail_of f p [] = panics
detail_of f p (seg ∷ segs) =
    if len seg.sid == 0
    then panics
    else returns (
        some (record {
          file_name = f.name;
          file_flag = f.flag;
          file_mode = f.mode % 2 ^ 32;
          file_size = f.size;
          encryption_type = p.encryption_type;
          seg_cnt = f.num_segs;
          mtu_size = p.mtu_size;
          seg_per_size = seg.size;
          seg_start_no = digit_value (slice seg.sid (len seg.sid - 1) (len seg.sid));
        }))

module _ (x : ApiEngine) (flags : FileFlags) where
  open x use {base, find_segs}

  -- `getFileDetail` of a file that is not nil.
  unfoldable pub get_file_detail : base.Db → File → Outcome (Option FileDetail)
  unfolding detail_of
  get_file_detail db f =
      if flags.is_slice f.flag then returns none else elim (or_missing (get_pkg base db f.pid)) [
        | none ↦ returns none
        | some p ↦ elim (find_segs db f.fid) [ err e ↦ returns none | ok segs ↦ detail_of f p segs ]
      ]

  -- Whether a file that must have a detail has none.
  abbrev pub lacks_detail : File → Option FileDetail → Bool
  lacks_detail f none = flags.is_no_slice f.flag
  lacks_detail f (some d) = false

abbrev shown : SegRow → SegRow
shown s = if state_eq s.state done then s else record s { size = 0 }

abbrev shown_all : List SegRow → List SegRow
shown_all [] = []
shown_all (s ∷ segs) = shown s ∷ shown_all segs

module _ (x : ApiEngine) where
  open x use {base, find_segs}

  -- The rows of the segments that can be found.
  unfoldable pub found_segs : base.Db → List String → List SegRow
  found_segs db [] = []
  found_segs db (sid ∷ sids) = elim (or_missing (base.find_seg db sid)) [
    | none ↦ found_segs db sids
    | some s ↦ s ∷ found_segs db sids
  ]

  -- The observers of tasks are told of the new task, the job manager among them.
  unfoldable pub announce :
      {TaskDb NodeDb : Type 0}
      → ℕ
      → String
      → Site base.Db TaskDb NodeDb
      → Outcome (Site base.Db TaskDb NodeDb)
  announce now task_id site = elim (flat (get site.system.tasks.tasks task_id)) [
    | none ↦ returns site
    | some t ↦
        and_then (told (Handlers.add_task base now t site.jobs))
          (λ jm. returns (record site { jobs = jm }))
  ]

  -- `TransferController.Get`: the size of a segment that is not done is shown as zero.
  unfoldable pub query_segs : String → String → base.Db → Code × List SegRow
  query_segs uid fid db = elim (or_missing (base.find_file db fid)) [
    | none ↦ (file_not_existed, [])
    | some f ↦ elim (or_missing (get_job_row base db (hash_job uid f.pid upload) false)) [
      | none ↦ (file_not_existed, [])
      | some j ↦ elim (find_segs db f.fid) [
        | err e ↦ (inner_server, [])
        | ok segs ↦ (fine, shown_all segs)
      ]
    ]
  ]

-- ===== src/Tasks/Downloads.antt =====
-- transfer/task/task.go: a download is given to a node.
use codemigrate.Prelude.{ℕ, String, List, ◌≡◌, none, some, length, ◌==◌, string_eq, if◌then◌else◌}
use codemigrate.Prelude.GoMap.{get}
use codemigrate.Cydex.{download, idle}
use codemigrate.Errors.{Error, Result, ok, err, invalid_req, no_node, not_sent, bad_response}
use codemigrate.TaskTypes.{Task}
use codemigrate.Nodes.{Outcome, returns, panics, node_at}
use codemigrate.Nodes.Messages.{send_request, end_request}
use codemigrate.Schedulers.Restrict
use codemigrate.Schedulers.Restrict.{RestrictUploadScheduler}
use codemigrate.Schedulers.Default.{Url, DefaultScheduler}
use codemigrate.Schedulers.Default
use codemigrate.Tasks.{TaskEngine}
use codemigrate.Tasks.Bitrates.{no_samples}
use codemigrate.Tasks.Dispatch.{System, Answer, give}
use codemigrate.Tasks.Uploads.{Bodiless}

pub record DownloadReq : Type 0 where
  pub task_id : String
  pub pid : String
  pub fid : String
  pub file_storage : String
  pub job_id : String
  pub sid_list : List String
  pub ip : String
  pub max_bitrate : ℕ

-- `NewTask` of a download, with what `DispatchDownload` sets.
unfoldable pub new_download_task : ℕ → DownloadReq → String → ℕ → Task
new_download_task now req nid bitrate = record {
  task_id = req.task_id;
  typ = download;
  job_id = req.job_id;
  pid = req.pid;
  fid = req.fid;
  node_id = nid;
  zone_id = "";
  num_segs = length req.sid_list;
  peer_ip = req.ip;
  allocated_bitrate = bitrate;
  min_bitrate = 0;
  avg_bitrate = 0;
  max_bitrate = 0;
  state = idle;
  total_traffic = 0;
  bitrates = no_samples;
  bitrates_cnt = 0;
  timestamp = now;
}

-- How the dispatch of a download ends: with an error and the tasks as they were, with a node and the
-- new task stored for it, or in a panic over the answer of a node. The bindings of uploads stay as they
-- were.
pub data DownloadCase {Db NodeDb : Type 0} (req : DownloadReq) (sys : System Db NodeDb)
    (answer : ℕ → Result Answer) (r : Outcome (System Db NodeDb × Result ℕ)) : Type 0 where
  bodiless : (u : ℕ) → Bodiless (answer u) → r ≡ panics → DownloadCase req sys answer r
  refused :
      (sys' : System Db NodeDb) (e : Error)
      → r ≡ returns (sys', err e)
      → sys'.tasks ≡ sys.tasks
      → sys'.scheduler.u_restrict ≡ sys.scheduler.u_restrict
      → DownloadCase req sys answer r
  given :
      (sys' : System Db NodeDb) (u : ℕ) (t : Task)
      → r ≡ returns (sys', ok u)
      → get sys'.tasks.tasks req.task_id ≡ some (some t)
      → t.node_id ≡ (node_at sys.nodes u).nid
      → sys'.scheduler.u_restrict ≡ sys.scheduler.u_restrict
      → DownloadCase req sys answer r

module _ (x : TaskEngine) {NodeDb : Type 0} (parse : String → Result Url) where
  open x use {Db}

  unfoldable pub after_download_answer :
      ℕ → DownloadReq → ℕ → Result Answer → System Db NodeDb → Outcome (System Db NodeDb × Result ℕ)
  unfolding give
  after_download_answer now req u answer sys = elim answer [
    | err e ↦ returns (sys, err e)
    | ok a ↦
        if a.is_ok
        then elim a.recomend_bitrate [
          | none ↦ panics
          | some bitrate ↦
              give x parse now (new_download_task now req (node_at sys.nodes u).nid bitrate) u sys
        ]
        else returns (sys, err bad_response)
  ]

  unfoldable pub ask_for_download :
      ℕ → DownloadReq → ℕ → Result Answer → System Db NodeDb → Outcome (System Db NodeDb × Result ℕ)
  unfolding after_download_answer
  ask_for_download now req u answer sys =
      let (nodes, sent) = send_request u sys.nodes in
      elim sent [
        | none ↦ returns (record sys { nodes = nodes }, err not_sent)
        | some seq ↦
            after_download_answer now req u answer (record sys { nodes = end_request u seq nodes })
      ]

  -- `DispatchDownload` of the task manager.
  unfoldable pub dispatch_download :
      ℕ
      → DownloadReq
      → (ℕ → Result Answer)
      → System Db NodeDb
      → Outcome (System Db NodeDb × Result ℕ)
  unfolding ask_for_download
  dispatch_download now req answer sys =
      let (scheduler, chosen) =
        Default.dispatch_download parse sys.nodes req.file_storage sys.scheduler in
      let sys' = record sys { scheduler = scheduler } in
      if req.task_id == "" then returns (sys, err invalid_req) else elim chosen [
        | err e ↦ returns (sys', err e)
        | ok none ↦ returns (sys', err no_node)
        | ok (some u) ↦ ask_for_download now req u (answer u) sys'
      ]

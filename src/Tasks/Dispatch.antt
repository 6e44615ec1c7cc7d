-- ===== src/Tasks/Dispatch.antt =====
-- transfer/task/task.go: an upload is given to a node. The answer of the node is an argument: what
-- `SendRequestSync` returns from it.
use codemigrate.Prelude.{
  ℕ, String, Option, none, some, Bool, length, ◌==◌, string_eq, if◌then◌else◌,
}
use codemigrate.Cydex.{upload, idle}
use codemigrate.Errors.{Result, ok, err, invalid_req, no_node, not_sent, bad_response}
use codemigrate.TaskTypes.{Task}
use codemigrate.Nodes.{Outcome, returns, panics, and_then, NodeManager, node_at}
use codemigrate.Nodes.Messages.{send_request, end_request}
use codemigrate.Schedulers.{UploadReq}
use codemigrate.Schedulers.Restrict
use codemigrate.Schedulers.Default
use codemigrate.Schedulers.Default.{Url, DefaultScheduler}
use codemigrate.Tasks.{TaskEngine, TaskManager, add_task, zone_of}
use codemigrate.Tasks.Bitrates.{no_samples}

-- The managers and the scheduler, which observe each other.
pub record System (Db NodeDb : Type 0) : Type 0 where
  pub tasks : TaskManager Db
  pub nodes : NodeManager NodeDb
  pub scheduler : DefaultScheduler

-- The response to a task: whether its code is OK, and the bitrate that its body recommends. The body may be
-- missing; to read its bitrate is a panic then.
pub record Answer : Type 0 where
  pub is_ok : Bool
  pub recomend_bitrate : Option ℕ

-- `NewTask` of an upload, with what `DispatchUpload` sets.
unfoldable pub new_task : ℕ → UploadReq → String → ℕ → Task
new_task now req nid bitrate = record {
  task_id = req.task_id;
  typ = upload;
  job_id = req.job_id;
  pid = req.pid;
  fid = req.fid;
  node_id = nid;
  zone_id = "";
  num_segs = length req.sid_list;
  peer_ip = req.ip;
  allocated_bitrate = bitrate;
  min_bitrate = 0;
  avg_bitrate = 0;
  max_bitrate = 0;
  state = idle;
  total_traffic = 0;
  bitrates = no_samples;
  bitrates_cnt = 0;
  timestamp = now;
}

module _ (x : TaskEngine) {NodeDb : Type 0} (parse : String → Result Url) where
  open x use {Db}

  -- `TaskMgr.AddTask` of the new task; the restricted scheduler observes the task manager.
  unfoldable pub give : ℕ → Task → ℕ → System Db NodeDb → Outcome (System Db NodeDb × Result ℕ)
  give now t u sys =
      let (tasks, nodes) = add_task x now t sys.tasks sys.nodes in
      let t' = record t { timestamp = now; zone_id = zone_of t sys.nodes } in
      and_then (Restrict.add_task now t' sys.scheduler.u_restrict) (λ restricted. returns (
        record {
          tasks = tasks;
          nodes = nodes;
          scheduler = record (sys.scheduler) { u_restrict = restricted };
        },
        ok u,
      ))

  unfoldable pub after_answer :
      ℕ → UploadReq → ℕ → Result Answer → System Db NodeDb → Outcome (System Db NodeDb × Result ℕ)
  unfolding give
  after_answer now req u answer sys = elim answer [
    | err e ↦ returns (sys, err e)
    | ok a ↦
        if a.is_ok
        then elim a.recomend_bitrate [
          | none ↦ panics
          | some bitrate ↦ give now (new_task now req (node_at sys.nodes u).nid bitrate) u sys
        ]
        else returns (sys, err bad_response)
  ]

  -- The request is sent to the node `u`, and the answer awaited.
  unfoldable pub ask_node :
      ℕ → UploadReq → ℕ → Result Answer → System Db NodeDb → Outcome (System Db NodeDb × Result ℕ)
  unfolding after_answer
  ask_node now req u answer sys =
      let (nodes, sent) = send_request u sys.nodes in
      elim sent [
        | none ↦ returns (record sys { nodes = nodes }, err not_sent)
        | some seq ↦ after_answer now req u answer (record sys { nodes = end_request u seq nodes })
      ]

  -- `DispatchUpload` of the task manager.
  unfoldable pub dispatch_upload :
      ℕ → UploadReq → (ℕ → Result Answer) → System Db NodeDb → Outcome (System Db NodeDb × Result ℕ)
  unfolding ask_node
  dispatch_upload now req answer sys =
      let (scheduler, chosen) = Default.dispatch_upload parse now sys.nodes req sys.scheduler in
      let sys' = record sys { scheduler = scheduler } in
      if req.task_id == "" then returns (sys, err invalid_req) else elim chosen [
        | err e ↦ returns (sys', err e)
        | ok none ↦ returns (sys', err no_node)
        | ok (some u) ↦ ask_node now req u (answer u) sys'
      ]

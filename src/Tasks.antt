-- ===== src/Tasks.antt =====
-- transfer/task/task.go: the task manager. Its observers are the lists of what they were told; what they
-- do with it is theirs. The ring of a task's bitrates is a list of 1000 samples.
pub mod Stopping
pub mod Bitrates
pub mod Statistics
pub mod Counting
pub mod Dispatch
pub mod Uploads
pub mod Downloads
use mathlib.Core.Option
use codemigrate.Prelude.{
  ℕ, ◌+◌, ◌%◌, ◌^◌, String, List, [], ◌∷◌, ◌++◌, map, Option, none, some, Bool, true, false, not,
  ◌&&◌, ltb, ◌==◌, nat_eq, string_eq, replicate, if◌then◌else◌,
}
use codemigrate.Prelude.Text.{to_lower}
use codemigrate.Prelude.GoMap.{GoMap, get, put, delete}
use codemigrate.Prelude.Int.{pos, negsuc}
use codemigrate.Cydex.{TransferType, TransferState, doing, pause, done, state_eq}
use codemigrate.Errors.{Result, ok, err}
use codemigrate.Models.Engine.{or_missing}
use codemigrate.TaskTypes.{Task, TaskState}
use codemigrate.Nodes.{NodeManager, node_at, set_node, get_by_nid, add_task_cnt}
use codemigrate.Tasks.Bitrates.{input_bitrate, samples, bitrate_statistics, no_samples}

-- The queries and writes of transfer/models/task.go, which the database engine answers: a parameter.
pub record TaskEngine : Type 1 where
  pub Db : Type 0
  pub find_task : Db → String → Result (Option Task)
  pub find_tasks_by_job : Db → String → Result (List Task)
  pub create_task : Db → Task → Db
  pub update_state : Db → Task → TransferState → Db
  pub update_total_traffic : Db → Task → ℕ → Db
  pub update_bitrate_statistics : Db → Task → ℕ × ℕ × ℕ → Db

pub data TaskEvent : Type 0 where
  on_add_task on_del_task : Task → TaskEvent
  on_task_state_notify : Option Task → TaskState → TaskEvent

-- A nil task in the map is `none`.
pub record TaskManager (Db : Type 0) : Type 0 where
  pub tasks : GoMap String (Option Task)
  pub observers : GoMap ℕ (List TaskEvent)
  pub observer_idx : ℕ
  pub cache_timeout : ℕ
  pub db : Db

unfoldable pub new_task_manager : {Db : Type 0} → Db → TaskManager Db
new_task_manager db = record {
  tasks = [];
  observers = [];
  observer_idx = 0;
  cache_timeout = 30;
  db = db;
}

module _ {Db : Type 0} where
  -- `observer_idx` is a `uint32`.
  unfoldable pub add_observer : TaskManager Db → TaskManager Db × ℕ
  add_observer tm = (
    record tm {
      observers = put tm.observers tm.observer_idx [];
      observer_idx = (tm.observer_idx + 1) % 2 ^ 32;
    },
    tm.observer_idx,
  )

  unfoldable pub del_observer : ℕ → TaskManager Db → TaskManager Db
  del_observer id tm = record tm { observers = delete tm.observers id }

  unfoldable pub tell : TaskEvent → TaskManager Db → TaskManager Db
  tell e tm = record tm {
    observers = map (λ (o : ℕ × List TaskEvent). (o.0, o.1 ++ e ∷ [])) tm.observers;
  }

module _ {Db : Type 0} where
  -- `node.AddTaskCnt` on the node of a task, if it is connected.
  unfoldable pub count_task : Bool → Task → NodeManager Db → NodeManager Db
  count_task more t nm = elim (get_by_nid nm t.node_id) [
    | none ↦ nm
    | some r ↦ set_node r (add_task_cnt t.typ (if more then pos 1 else negsuc 0) (node_at nm r)) nm
  ]

  unfoldable pub zone_of : Task → NodeManager Db → String
  zone_of t nm = elim (get_by_nid nm t.node_id) [ none ↦ "" | some r ↦ (node_at nm r).zone_id ]

abbrev pub flat : Option (Option Task) → Option Task
flat none = none
flat (some t) = t

-- The state of a task that a node reports.
unfoldable pub reported : String → Option TransferState
reported s =
    if to_lower s == "transferring"
    then some doing
    else if to_lower s == "interrupted"
    then some pause
    else if to_lower s == "end"
    then some done
    else none

module _ (x : TaskEngine) where
  open x use {
    Db, find_task, create_task, update_state, update_total_traffic, update_bitrate_statistics,
  }

  -- `LoadTask`.
  unfoldable pub load_task : Db → String → Option Task
  load_task db taskid =
      Option.map
        (λ (row : Task). record row { bitrates = no_samples; bitrates_cnt = 0; timestamp = 0 })
        (or_missing (find_task db taskid))

  unfoldable pub add_task :
      {NodeDb : Type 0}
      → ℕ
      → Task
      → TaskManager Db
      → NodeManager NodeDb
      → TaskManager Db × NodeManager NodeDb
  add_task now t tm nm =
      let t' = record t { timestamp = now; zone_id = zone_of t nm } in
      (
        tell (on_add_task t')
            (record tm { db = create_task tm.db t'; tasks = put tm.tasks t'.task_id (some t') }),
        count_task true t nm,
      )

  -- `GetTask`: an unknown task is stored as what the database has of it, nil included.
  unfoldable pub get_task : String → TaskManager Db → TaskManager Db × Option Task
  unfolding load_task
  get_task taskid tm = elim (get tm.tasks taskid) [
    | some t ↦ (tm, t)
    | none ↦ let t = load_task tm.db taskid in (record tm { tasks = put tm.tasks taskid t }, t)
  ]

  unfoldable pub del_task :
      {NodeDb : Type 0}
      → String
      → TaskManager Db
      → NodeManager NodeDb
      → TaskManager Db × NodeManager NodeDb
  del_task taskid tm nm =
      let tm1 = record tm { tasks = delete tm.tasks taskid } in
      elim (flat (get tm.tasks taskid)) [
        | none ↦ (tm1, nm)
        | some t ↦
            let db1 = update_total_traffic tm.db t t.total_traffic in
            let db2 = update_bitrate_statistics db1 t (bitrate_statistics (samples t)) in
            (tell (on_del_task t) (record tm1 { db = db2 }), count_task false t nm)
      ]

  -- The ticker of a task: a task that was silent for the time-out is paused and deleted.
  unfoldable pub check_timer :
      {NodeDb : Type 0}
      → ℕ
      → String
      → TaskManager Db
      → NodeManager NodeDb
      → TaskManager Db × NodeManager NodeDb
  unfolding del_task
  check_timer now taskid tm nm = elim (flat (get tm.tasks taskid)) [
    | none ↦ (tm, nm)
    | some t ↦
        let t' = record t { state = pause } in
        let paused =
          if state_eq t.state doing
          then record tm { tasks = put tm.tasks taskid (some t'); db = update_state tm.db t' pause }
          else tm in
        let deleted = del_task taskid paused nm in
        if ltb (t.timestamp + tm.cache_timeout) now then deleted else (tm, nm)
  ]

  -- What a report changes in its task.
  unfoldable pub note_report : ℕ → TaskState → TransferState → Task → Task
  note_report now s sv t =
      let t' = record t { timestamp = now; state = sv } in
      if ltb 0 s.total_traffic then record t' { total_traffic = s.total_traffic } else t'

  unfoldable pub save_report :
      ℕ → TaskState → TransferState → Option Task → TaskManager Db → TaskManager Db
  unfolding note_report
  save_report now s sv none tm = tm
  save_report now s sv (some t) tm =
      let t' = note_report now s sv t in
      let t'' = if s.sid == "" then t' else input_bitrate s.bitrate t' in
      record tm {
        tasks = put tm.tasks s.task_id (some t'');
        db = if state_eq t.state sv then tm.db else update_state tm.db t' sv;
      }

  -- `handleTaskState`: a report without a segment ends its task.
  unfoldable pub handle_task_state :
      {NodeDb : Type 0}
      → ℕ
      → TaskState
      → TaskManager Db
      → NodeManager NodeDb
      → TaskManager Db × NodeManager NodeDb
  unfolding get_task del_task save_report
  handle_task_state now s tm nm = elim (reported s.state) [
    | none ↦ (tm, nm)
    | some sv ↦
        let (tm1, t) = get_task s.task_id tm in
        let tm2 = save_report now s sv t tm1 in
        let ended = del_task s.task_id tm2 nm in
        if s.sid == ""
        then ended
        else (tell (on_task_state_notify (flat (get tm2.tasks s.task_id)) s) tm2, nm)
  ]

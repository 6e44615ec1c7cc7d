-- ===== src/Tasks/Stopping.antt =====
-- transfer/task/task.go: the nodes of a job's tasks are told to stop them. The goroutines of the tasks run
-- one after the other; whether a node answers in time makes no difference.
use codemigrate.Prelude.{ℕ, String, List, [], ◌∷◌, ◌++◌, none, some, if◌then◌else◌}
use codemigrate.Errors.{ok, err}
use codemigrate.TaskTypes.{Task, is_dispatched}
use codemigrate.Nodes.{NodeManager, get_by_nid}
use codemigrate.Nodes.Messages.{send_request, end_request}
use codemigrate.Tasks.{TaskEngine}

-- The nodes that a request was sent to, with the id of the task that they are to stop.
abbrev pub Stops : Type 0
Stops = List (ℕ × String)

module _ {NodeDb : Type 0} where
  abbrev send_stop : ℕ → String → NodeManager NodeDb → NodeManager NodeDb × Stops
  send_stop u task_id nm =
      let (nm', sent) = send_request u nm in
      elim sent [ none ↦ (nm', []) | some seq ↦ (end_request u seq nm', (u, task_id) ∷ []) ]

  -- `Task.Stop`.
  unfoldable pub stop : Task → NodeManager NodeDb → NodeManager NodeDb × Stops
  stop t nm =
      if is_dispatched t
      then elim (get_by_nid nm t.node_id) [ none ↦ (nm, []) | some u ↦ send_stop u t.task_id nm ]
      else (nm, [])

  unfoldable pub stop_each : List Task → NodeManager NodeDb → NodeManager NodeDb × Stops
  unfolding stop
  stop_each [] nm = (nm, [])
  stop_each (t ∷ ts) nm =
      let (nm1, sent) = stop t nm in let (nm2, rest) = stop_each ts nm1 in (nm2, sent ++ rest)

  -- `StopTasks`.
  unfoldable pub stop_tasks :
      (x : TaskEngine) → x.Db → String → NodeManager NodeDb → NodeManager NodeDb × Stops
  unfolding stop_each
  stop_tasks x db job_id nm = elim (x.find_tasks_by_job db job_id) [
    | err e ↦ (nm, [])
    | ok ts ↦ stop_each ts nm
  ]

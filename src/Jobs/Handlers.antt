-- ===== src/Jobs/Handlers.antt =====
-- pkg/job.go: what the job manager does when the task manager reports a task. A nil `jd.File` that
-- the code reads is a panic.
use codemigrate.Prelude.{
  ℕ, ◌-◌, String, Option, none, some, Bool, ◌&&◌, ◌||◌, not, ltb, leb, ◌==◌, nat_eq, string_eq,
  if◌then◌else◌,
}
use codemigrate.Prelude.GoMap.{get, put}
use codemigrate.Prelude.Int.{decrement}
use codemigrate.Cydex.{TransferState, is_upload, idle, doing, pause, done, state_eq}
use codemigrate.TaskTypes.{Task, TaskState}
use codemigrate.Models.{Job, JobDetail, File, SegRow, reset}
use codemigrate.Models.Engine.{Engine, or_missing}
use codemigrate.JobDetails.{update_job_detail}
use codemigrate.Jobs.{JobManager, on_job_start, notify, store_job}
use codemigrate.Jobs.Cache.{get_job, get_job_detail}
use codemigrate.Jobs.Lifecycle.{Ending, returns, nil_panic, process_job}

module _ (x : Engine) where
  open x use {Db, find_file, save_job_detail, save_job, save_seg_state}

  -- The detail that a handler holds is an entry of the cached job, if the job is cached.
  unfoldable pub store_detail : String → String → JobDetail → JobManager Db → JobManager Db
  store_detail jobid fid jd jm = elim (get jm.jobs jobid) [
    | none ↦ jm
    | some j ↦ record jm {
      jobs = put jm.jobs jobid (record j { details = put j.details fid (some jd) });
    }
  ]

  abbrev pub save_detail : JobDetail → JobManager Db → JobManager Db
  save_detail jd jm = record jm { db = save_job_detail jm.db jd }

  -- `if jd.File == nil { jd.GetFile() }`
  abbrev pub load_file : Db → JobDetail → JobDetail
  load_file db jd = elim jd.file [
    | some f ↦ jd
    | none ↦ record jd { file = or_missing (find_file db jd.fid) }
  ]

  -- A task starts a detail that has not started, or that the task sends whole.
  unfoldable pub start_detail : ℕ → File → JobDetail → JobDetail
  start_detail now f jd =
      if ltb 0 f.size
      then record (reset jd) { start_time = now }
      else record jd { start_time = now; finish_time = now }

  -- `Reset` saves the detail, before it is saved again with its start time.
  abbrev pub save_reset : File → JobDetail → JobManager Db → JobManager Db
  save_reset f jd jm = if ltb 0 f.size then save_detail (reset jd) jm else jm

  unfoldable pub start_job : String → Job → JobManager Db → JobManager Db
  start_job jobid j jm =
      if state_eq j.state idle
      then (let j' = record j { state = doing } in
          notify (on_job_start j') (store_job jobid j' (record jm { db = save_job jm.db j' })))
      else jm

  -- The job as it stands in the cache, or the caller's own copy.
  abbrev pub current : String → Job → JobManager Db → Job
  current jobid j jm = elim (get jm.jobs jobid) [ some k ↦ k | none ↦ j ]

  -- The detail of a task starts, if it has not started or the task sends the whole file.
  unfoldable pub begin_detail : ℕ → Task → File → JobDetail → JobManager Db → JobManager Db
  unfolding start_detail store_detail
  begin_detail now t f jd jm =
      let jd' = start_detail now f jd in
      if jd.start_time == 0 || t.num_segs == f.num_segs
      then save_detail jd' (save_reset f jd (store_detail t.job_id t.fid jd' jm))
      else store_detail t.job_id t.fid jd jm

  -- `AddTask`.
  unfoldable pub add_task : ℕ → Task → JobManager Db → Ending (JobManager Db)
  unfolding begin_detail start_job
  add_task now t jm =
      let (jm1, found) = get_job x t.job_id jm in
      elim found [
        | none ↦ returns jm1
        | some j ↦
            let (jm2, held) = get_job_detail x t.job_id t.fid jm1 in
            elim held [
              | none ↦ returns jm2
              | some jd0 ↦
                  let jd = load_file jm2.db jd0 in
                  elim jd.file [
                    | none ↦ nil_panic
                    | some f ↦
                        let jm3 = begin_detail now t f jd jm2 in
                        returns (start_job t.job_id (current t.job_id j jm3) jm3)
                  ]
            ]
      ]

  -- `DelTask`: a task that timed out pauses its detail, unless the detail is done.
  unfoldable pub del_task : Option Task → JobManager Db → JobManager Db
  unfolding store_detail
  del_task none jm = jm
  del_task (some t) jm =
      let (jm1, found) = get_job x t.job_id jm in
      elim found [
        | none ↦ jm1
        | some j ↦
            let (jm2, held) = get_job_detail x t.job_id t.fid jm1 in
            elim held [
              | none ↦ jm2
              | some jd ↦
                  let jd' = record jd { state = t.state } in
                  if state_eq jd.state t.state || state_eq jd.state done
                  then jm2
                  else if state_eq t.state pause
                  then save_detail jd' (store_detail t.job_id t.fid jd' jm2)
                  else jm2
            ]
      ]

  -- The uploaded segment's row follows its state.
  unfoldable pub save_seg : Job → Option SegRow → TransferState → Db → Db
  save_seg j seg seg_state db = elim seg [
    | none ↦ db
    | some row ↦
        if is_upload j.typ && not (state_eq row.state seg_state)
        then save_seg_state db row seg_state
        else db
  ]

  abbrev pub count_down : JobDetail → Job → Job
  count_down jd j =
      if state_eq jd.state done
      then record j { num_unfinished_details = decrement j.num_unfinished_details }
      else j

  -- What a notification leaves in the cache and in the database.
  unfoldable pub save_progress :
      ℕ → Task → Job → Option SegRow → JobDetail → Bool → JobManager Db → JobManager Db
  unfolding store_detail
  save_progress now t j seg jd force_save jm =
      let jm1 = store_detail t.job_id t.fid jd jm in
      let j' = count_down jd (current t.job_id j jm1) in
      let jm2 = store_job t.job_id j' jm1 in
      let jm3 = record jm2 { db = save_seg j' seg t.state jm2.db } in
      if force_save || leb jm.cache_sync_timeout (now - jd.update_at)
      then save_detail jd jm3
      else jm3

module _ (x : Engine) (get_total_bytes : TaskState → ℕ) where
  open x use {Db, find_seg, find_file}

  -- The part of `TaskStateNotify` that has the detail.
  unfoldable pub notify_detail :
      ℕ → Task → TaskState → Job → JobDetail → JobManager Db → Ending (JobManager Db × TaskState)
  unfolding save_progress
  notify_detail now t s j jd0 jm =
      let jd = load_file x jm.db jd0 in
      let seg = or_missing (find_seg jm.db s.sid) in
      let row = or_missing (find_file jm.db jd.fid) in
      elim (update_job_detail get_total_bytes now seg row jd s t.state) [
        | none ↦ nil_panic
        | some (jd', s', force_save) ↦
            returns (process_job x t.job_id (save_progress x now t j seg jd' force_save jm), s')
      ]

  -- `TaskStateNotify`: the manager, and the notification as the next observer sees it.
  unfoldable pub task_state_notify :
      ℕ → Option Task → TaskState → JobManager Db → Ending (JobManager Db × TaskState)
  unfolding notify_detail
  task_state_notify now none s jm = returns (jm, s)
  task_state_notify now (some t) s jm =
      if s.sid == ""
      then returns (jm, s)
      else (let (jm1, found) = get_job x t.job_id jm in
          elim found [
            | none ↦ returns (jm1, s)
            | some j ↦
                let (jm2, held) = get_job_detail x t.job_id t.fid jm1 in
                elim held [ none ↦ returns (jm2, s) | some jd ↦ notify_detail now t s j jd jm2 ]
          ])

-- ===== src/Jobs/Lifecycle.antt =====
-- pkg/job.go: jobs are created, deleted and finished.
use mathlib.Core.Option
use codemigrate.Prelude.{
  ℕ, ◌+◌, String, List, [], ◌∷◌, ◌++◌, Option, none, some, false, ltb, ◌==◌, nat_eq, string_eq,
  if◌then◌else◌,
}
use codemigrate.Prelude.GoMap.{delete}
use codemigrate.Cydex.{TransferType, upload, is_download, done}
use codemigrate.Errors.{Error, Result, ok, err}
use codemigrate.Models.{Job, JobDetail, File, new_job, new_job_detail, reset}
use codemigrate.Models.Engine.{
  Engine, or_nil, or_missing, get_pkg, get_job_row, index_details, get_un_finished_jobs, delete_job,
}
use codemigrate.Tracks.{Tracks, no_tracks, add_track, add_track_of_delete}
use codemigrate.Jobs.{JobManager, on_job_create, on_job_finish, hash_job, notify, store_job}
use codemigrate.Jobs.Cache.{get_job, is_job_finished, del_track}

-- How a method of Go ends that may panic.
pub data Ending {ℓ} (A : Type ℓ) : Type ℓ where
  returns : A → Ending A
  nil_panic : Ending A

abbrev pub track_jobs : List Job → Tracks → Tracks
track_jobs [] ts = ts
track_jobs (j ∷ js) ts = track_jobs js (add_track ts j.uid j.pid j.typ)

-- `Job.Finish`.
abbrev pub finish : Job → Job
finish j = record j { finished_times = j.finished_times + 1; state = done }

module _ (x : Engine) where
  open x use {
    Db, find_jobs_by_pid, find_job_details, find_file, save_job_detail, save_job, begin, insert_job,
    insert_job_detail, commit,
  }

  -- A job's track; a download brings back the tracks of the package's uploaders.
  unfoldable pub track_job : Db → String → String → TransferType → Tracks → Tracks
  track_job db uid pid typ ts =
      let ts' = add_track ts uid pid typ in
      if is_download typ then track_jobs (or_nil (find_jobs_by_pid db pid upload)) ts' else ts'

  -- One detail of a job that starts again: `none` is the panic of a missing file.
  unfoldable pub restart_detail : ℕ → Db → JobDetail → Option JobDetail
  restart_detail now db jd = elim (or_missing (find_file db jd.fid)) [
    | none ↦ none
    | some f ↦
        let jd' = record jd { file = some f } in
        some
          (if ltb 0 f.size then reset jd' else record jd' { start_time = now; finish_time = now })
  ]

  unfoldable pub restart_details : ℕ → Db → List JobDetail → Option (Db × List JobDetail)
  unfolding restart_detail
  restart_details now db [] = some (db, [])
  restart_details now db (jd ∷ jds) = elim (restart_detail now db jd) [
    | none ↦ none
    | some jd' ↦
        Option.map (λ r. (r.0, jd' ∷ r.1)) (restart_details now (save_job_detail db jd') jds)
  ]

  -- `CreateJob` on a job that exists: its details start again, the cache forgets it.
  unfoldable pub recreate_job :
      ℕ → String → String → TransferType → Job → JobManager Db → Ending (JobManager Db)
  unfolding restart_details track_job
  recreate_job now uid pid typ j jm =
      elim (restart_details now jm.db (or_nil (find_job_details jm.db j.job_id))) [
        | none ↦ nil_panic
        | some (db, jds) ↦ returns (
            notify (on_job_create (record j { details = index_details [] jds })) (record jm {
              db = db;
              tracks = track_job db uid pid typ jm.tracks;
              jobs = delete jm.jobs (hash_job uid pid typ);
            }))
      ]

  -- A detail of a new job: empty files and folders are done at once.
  unfoldable pub first_detail : ℕ → String → File → JobDetail
  first_detail now jobid f =
      let jd = new_job_detail jobid f.fid in
      if f.size == 0 then record jd { start_time = now; finish_time = now; state = done } else jd

  unfoldable pub insert_details : ℕ → String → List File → Db → Result Db
  unfolding first_detail
  insert_details now jobid [] s = ok s
  insert_details now jobid (f ∷ fs) s = elim (insert_job_detail s (first_detail now jobid f)) [
    | err e ↦ err e
    | ok s' ↦ insert_details now jobid fs s'
  ]

  -- The transaction that inserts a job and its details; `ok none` is a package that does not exist.
  unfoldable pub insert_new_job : ℕ → Job → Db → Result (Option Db)
  unfolding insert_details
  insert_new_job now j db = elim (begin db) [
    | err e ↦ err e
    | ok s ↦ elim (insert_job s j) [
      | err e ↦ err e
      | ok s' ↦ elim (get_pkg x db j.pid) [
        | err e ↦ err e
        | ok none ↦ ok none
        | ok (some p) ↦ elim (insert_details now j.job_id p.files s') [
          | err e ↦ err e
          | ok s'' ↦ elim (commit s'') [ err e ↦ err e | ok db' ↦ ok (some db') ]
        ]
      ]
    ]
  ]

  -- `CreateJob`: the state and the error that it returns.
  unfoldable pub create_job :
      ℕ → String → String → TransferType → JobManager Db → Ending (JobManager Db × Option Error)
  unfolding recreate_job insert_new_job track_job
  create_job now uid pid typ jm =
      let jobid = hash_job uid pid typ in
      elim (or_missing (get_job_row x jm.db jobid false)) [
        | some j ↦ elim (recreate_job now uid pid typ j jm) [
          | nil_panic ↦ nil_panic
          | returns jm' ↦ returns (jm', none)
        ]
        | none ↦
            let j = new_job jobid uid pid typ in
            elim (insert_new_job now j jm.db) [
              | err e ↦ returns (jm, some e)
              | ok none ↦ returns (jm, none)
              | ok (some db) ↦ returns (
                notify (on_job_create (record j { pkg = or_missing (get_pkg x jm.db pid) }))
                    (record jm { db = db; tracks = track_job db uid pid typ jm.tracks }),
                none,
              )
            ]
      ]

  -- `DeleteJob`.
  unfoldable pub remove_job :
      String → String → TransferType → JobManager Db → JobManager Db × Option Error
  remove_job uid pid typ jm =
      let hashid = hash_job uid pid typ in
      elim (or_missing (get_job_row x jm.db hashid false)) [
        | none ↦ (jm, none)
        | some j ↦ elim (delete_job x jm.db hashid) [
          | err e ↦ (jm, some e)
          | ok db ↦
              let jm' = del_track x uid pid typ (record jm { db = db }) in
              (
                record jm' {
                  jobs = delete jm'.jobs hashid;
                  tracks = add_track_of_delete jm'.tracks uid pid typ;
                },
                none,
              )
        ]
      ]

  -- The end of a finished job: cache and track go, at once or when the delay is over.
  unfoldable pub forget_job : String → Job → JobManager Db → JobManager Db
  forget_job jobid j jm = del_track x j.uid j.pid j.typ (record jm { jobs = delete jm.jobs jobid })

  unfoldable pub finish_job : String → Job → JobManager Db → JobManager Db
  unfolding forget_job
  finish_job jobid j jm =
      let j' = finish j in
      let kept = store_job jobid j' (record jm { db = save_job jm.db j' }) in
      notify (on_job_finish j') (
        if ltb 0 jm.del_job_delay
        then record kept { delayed = kept.delayed ++ (jobid, j') ∷ [] }
        else forget_job jobid j' kept)

  -- `ProcessJob`.
  unfoldable pub process_job : String → JobManager Db → JobManager Db
  unfolding finish_job
  process_job jobid jm =
      let (jm', found) = get_job x jobid jm in
      elim found [
        | none ↦ jm'
        | some j ↦ if is_job_finished x jm'.db j then finish_job jobid j jm' else jm'
      ]

  -- The goroutine of a finished job wakes up.
  unfoldable pub wake_delayed : JobManager Db → JobManager Db
  unfolding forget_job
  wake_delayed jm = elim jm.delayed [
    | [] ↦ jm
    | (jobid, j) ∷ js ↦ forget_job jobid j (record jm { delayed = js })
  ]

  abbrev pub track_unfinished : Db → List Job → Tracks → Tracks
  track_unfinished db [] ts = ts
  track_unfinished db (j ∷ js) ts = track_unfinished db js (track_job db j.uid j.pid j.typ ts)

  -- `LoadTracks`.
  unfoldable pub load_tracks : JobManager Db → JobManager Db × Option Error
  load_tracks jm = elim (get_un_finished_jobs x jm.db) [
    | err e ↦ (jm, some e)
    | ok js ↦ (record jm { tracks = track_unfinished jm.db js no_tracks }, none)
  ]

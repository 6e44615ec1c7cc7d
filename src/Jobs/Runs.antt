-- ===== src/Jobs/Runs.antt =====
-- Any history of calls of the job manager of job.go keeps the tracks in agreement.
use codemigrate.Prelude.{ℕ, String, Bool, List, [], ◌∷◌, ◌≡◌, subst, Option, nat_eq, string_eq}
use codemigrate.Cydex.{TransferType}
use codemigrate.TaskTypes.{Task, TaskState}
use codemigrate.Models.Engine.{Engine}
use codemigrate.Tracks.{clear_tracks, get_pkg_track, get_user_track, get_track_of_delete}
use codemigrate.Tracks.Consistency.{
  elem, get_pkg_track-get_user_track, get_track_of_delete-IsConsistent, no_tracks-IsConsistent,
}
use codemigrate.Jobs.{JobManager, new_job_manager, add_job_observer}
use codemigrate.Jobs.Cache.{get_job, get_job_detail, del_track}
use codemigrate.Jobs.Lifecycle.{
  Ending, returns, nil_panic, create_job, remove_job, process_job, wake_delayed, load_tracks,
}
use codemigrate.Jobs.Handlers.{add_task, del_task, task_state_notify}
use codemigrate.Jobs.Steps.{
  EndsIn, dropped, create_job-Agrees, remove_job-Agrees, wake_delayed-Agrees, tracks-del_task,
  add_task-Agrees, task_state_notify-Agrees,
}
use codemigrate.Jobs.Agreement.{
  Agrees, get_job-Agrees, tracks-get_job_detail, del_track-Agrees, process_job-Agrees,
  load_tracks-Agrees,
}

-- A call of the job manager by the program, with the time at which it happens.
pub data Call : Type 0 where
  create_call : ℕ → String → String → TransferType → Call
  delete_call del_track_call : String → String → TransferType → Call
  fetch_deletes_call : String → TransferType → Bool → Call
  add_task_call : ℕ → Task → Call
  del_task_call : Option Task → Call
  notify_call : ℕ → Option Task → TaskState → Call
  process_call : String → Call
  get_job_call : String → Call
  get_detail_call : String → String → Call
  load_call wake_call observe_call clear_call : Call

module _ (x : Engine) (get_total_bytes : TaskState → ℕ) where
  open x use {Db}

  unfoldable pub serve : Call → JobManager Db → Ending (JobManager Db)
  serve (create_call now uid pid typ) jm = dropped (create_job x now uid pid typ jm)
  serve (delete_call uid pid typ) jm = returns (remove_job x uid pid typ jm).0
  serve (del_track_call uid pid typ) jm = returns (del_track x uid pid typ jm)
  serve (fetch_deletes_call uid typ remove) jm =
      returns (record jm { tracks = (get_track_of_delete jm.tracks uid typ remove).0 })
  serve (add_task_call now t) jm = add_task x now t jm
  serve (del_task_call t) jm = returns (del_task x t jm)
  serve (notify_call now t s) jm = dropped (task_state_notify x get_total_bytes now t s jm)
  serve (process_call h) jm = returns (process_job x h jm)
  serve (get_job_call h) jm = returns (get_job x h jm).0
  serve (get_detail_call h fid) jm = returns (get_job_detail x h fid jm).0
  serve load_call jm = returns (load_tracks x jm).0
  serve wake_call jm = returns (wake_delayed x jm)
  serve observe_call jm = returns (add_job_observer jm)
  serve clear_call jm = returns (record jm { tracks = clear_tracks jm.tracks })

  -- The calls one after the other; a panic ends the program.
  unfoldable pub run : List Call → JobManager Db → Ending (JobManager Db)
  run [] jm = returns jm
  run (call ∷ calls) jm = elim (serve call jm) [
    | nil_panic ↦ nil_panic
    | returns jm' ↦ run calls jm'
  ]

  EndsIn-dropped :
      {B : Type 0} (r : Ending (JobManager Db × B))
      → EndsIn (λ q. Agrees x q.0) r
      → EndsIn (Agrees x) (dropped r)
  EndsIn-dropped (returns q) c = c
  EndsIn-dropped nil_panic c = tt

  serve-Agrees :
      (call : Call) (jm : JobManager Db) → Agrees x jm → EndsIn (Agrees x) (serve call jm)
  unfolding serve add_job_observer clear_tracks
  serve-Agrees (create_call now uid pid typ) jm c =
      EndsIn-dropped _ (create_job-Agrees x now uid pid typ jm c)
  serve-Agrees (delete_call uid pid typ) jm c = remove_job-Agrees x uid pid typ jm c
  serve-Agrees (del_track_call uid pid typ) jm c = del_track-Agrees x uid pid typ jm c
  serve-Agrees (fetch_deletes_call uid typ remove) jm c =
      get_track_of_delete-IsConsistent jm.tracks uid typ remove c
  serve-Agrees (add_task_call now t) jm c = add_task-Agrees x now t jm c
  serve-Agrees (del_task_call t) jm c = rw (tracks-del_task x t jm) c
  serve-Agrees (notify_call now t s) jm c =
      EndsIn-dropped _ (task_state_notify-Agrees x get_total_bytes now t s jm c)
  serve-Agrees (process_call h) jm c = process_job-Agrees x h jm c
  serve-Agrees (get_job_call h) jm c = get_job-Agrees x h jm c
  serve-Agrees (get_detail_call h fid) jm c = rw (tracks-get_job_detail x h fid jm) c
  serve-Agrees load_call jm c = load_tracks-Agrees x jm c
  serve-Agrees wake_call jm c = wake_delayed-Agrees x jm c
  serve-Agrees observe_call jm c = c
  serve-Agrees clear_call jm c = no_tracks-IsConsistent

  pub run-Agrees :
      (calls : List Call) (jm : JobManager Db) → Agrees x jm → EndsIn (Agrees x) (run calls jm)
  unfolding run
  run-Agrees [] jm c = c
  run-Agrees (call ∷ calls) jm c =
      run_case (serve call jm) (serve-Agrees call jm c) (λ jm' c'. run-Agrees calls jm' c')
    where
      run_case :
          (r : Ending (JobManager Db))
          → EndsIn (Agrees x) r
          → ((jm' : JobManager Db) → Agrees x jm' → EndsIn (Agrees x) (run calls jm'))
          → EndsIn (Agrees x) (elim r [ nil_panic ↦ nil_panic | returns jm' ↦ run calls jm' ])
      run_case (returns jm') c' k = k jm' c'
      run_case nil_panic _ k = tt

  -- After any sequence of calls that starts from the new manager and does not panic, a user is among
  -- those that `GetPkgTrack` lists for a package exactly if the package is among those that
  -- `GetUserTrack` lists for the user, in each direction of transfer.
  pub run_tracks :
      (calls : List Call) (db : Db) (jm : JobManager Db)
      → run calls (new_job_manager db) ≡ returns jm
      → (uid pid : String) (typ : TransferType)
      → elem uid (get_pkg_track jm.tracks pid typ) ≡ elem pid (get_user_track jm.tracks uid typ)
  run_tracks calls db jm e uid pid typ =
      get_pkg_track-get_user_track jm.tracks uid pid typ
        (subst (EndsIn (Agrees x)) e (run-Agrees calls (new_job_manager db) no_tracks-IsConsistent))

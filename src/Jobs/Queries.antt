-- ===== src/Jobs/Queries.antt =====
-- pkg/job.go: the jobs that the tracks name, and the state of jobs that is made up at the start.
use codemigrate.Prelude.{String, List, [], ◌∷◌, none, some, ◌==◌, nat_eq, if◌then◌else◌, ◌&&◌}
use codemigrate.Cydex.{TransferType, upload, download}
use codemigrate.Errors.{ok, err}
use codemigrate.Models.{Job}
use codemigrate.Models.Engine.{Engine, is_finished}
use codemigrate.Tracks.{get_pkg_track, get_user_track}
use codemigrate.Jobs.{JobManager, hash_job}
use codemigrate.Jobs.Cache.{get_job}
use codemigrate.Jobs.Lifecycle.{finish}

module _ (x : Engine) where
  open x use {Db, find_jobs_by_type, save_job, protect_details}

  -- The jobs of these names that there are.
  unfoldable pub existing_jobs : List String → JobManager Db → JobManager Db × List Job
  existing_jobs [] jm = (jm, [])
  existing_jobs (hashid ∷ hashids) jm =
      let (jm1, job) = get_job x hashid jm in
      let (jm2, rest) = existing_jobs hashids jm1 in
      (jm2, elim job [ none ↦ rest | some j ↦ j ∷ rest ])

  abbrev pub jobs_of_user : String → TransferType → List String → List String
  jobs_of_user uid typ [] = []
  jobs_of_user uid typ (pid ∷ pids) = hash_job uid pid typ ∷ jobs_of_user uid typ pids

  abbrev pub jobs_of_pkg : String → TransferType → List String → List String
  jobs_of_pkg pid typ [] = []
  jobs_of_pkg pid typ (uid ∷ uids) = hash_job uid pid typ ∷ jobs_of_pkg pid typ uids

  -- `GetJobsByUid` and `GetJobsByPid` never return an error.
  unfoldable pub get_jobs_by_uid : String → TransferType → JobManager Db → JobManager Db × List Job
  unfolding existing_jobs
  get_jobs_by_uid uid typ jm =
      existing_jobs (jobs_of_user uid typ (get_user_track jm.tracks uid typ)) jm

  unfoldable pub get_jobs_by_pid : String → TransferType → JobManager Db → JobManager Db × List Job
  unfolding existing_jobs
  get_jobs_by_pid pid typ jm =
      existing_jobs (jobs_of_pkg pid typ (get_pkg_track jm.tracks pid typ)) jm

  -- A job whose details are done counts as finished once at least.
  unfoldable pub sync_jobs : List Job → Db → Db
  sync_jobs [] db = db
  sync_jobs (j ∷ js) db =
      sync_jobs js
        (if is_finished x db j && j.finished_times == 0 then save_job db (finish j) else db)

  unfoldable pub sync_type : TransferType → Db → Db
  unfolding sync_jobs
  sync_type typ db = elim (find_jobs_by_type db typ) [ err e ↦ db | ok js ↦ sync_jobs js db ]

  -- `JobsSyncState`, with `ProtectJobDetailState`, which pauses the details that are being transferred.
  unfoldable pub jobs_sync_state : JobManager Db → JobManager Db
  unfolding sync_type
  jobs_sync_state jm = record jm {
    db = protect_details (sync_type upload (sync_type download jm.db));
  }

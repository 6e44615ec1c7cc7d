-- ===== src/Jobs.antt =====
-- pkg/job.go: the job manager. It caches unfinished jobs, keeps the tracks, follows the tasks of the
-- task manager and tells its observers. The mutex makes each method one step; a cached job is a value
-- that a method writes back, which is what Go's pointer into the cache does.
pub mod Cache
pub mod Lifecycle
pub mod Handlers
pub mod Agreement
pub mod Steps
pub mod Runs
pub mod Finishing
pub mod Restarts
pub mod Queries
use Prim.Native.String.{◌++◌ as str_append}
use codemigrate.Prelude.{
  ℕ, ◌+◌, String, List, [], ◌∷◌, ◌++◌, map, Option, none, some, Bool, true, false, not, ◌&&◌, ltb,
  ◌==◌, string_eq, if◌then◌else◌,
}
use codemigrate.Prelude.GoMap.{GoMap, get, put, delete}
use codemigrate.Cydex.{TransferType, upload, download, unknown}
use codemigrate.Models.{Job}
use codemigrate.Tracks.{Tracks, no_tracks}

-- What an observer of jobs is told.
pub data JobEvent : Type 0 where
  on_job_create on_job_start on_job_finish : Job → JobEvent

-- An observer is the list of the calls that it has received, oldest first. A delayed deletion is a
-- goroutine that sleeps `del_job_delay`.
pub record JobManager (Db : Type 0) : Type 0 where
  pub cache_sync_timeout : ℕ
  pub del_job_delay : ℕ
  pub jobs : GoMap String Job
  pub tracks : Tracks
  pub job_observers : List (List JobEvent)
  pub delayed : List (String × Job)
  pub db : Db

-- `DEFAULT_CACHE_SYNC_TIMEOUT` and `DELAY_DEL_JOB_TIME`, in seconds.
abbrev pub new_job_manager : {Db : Type 0} → Db → JobManager Db
new_job_manager db = record {
  cache_sync_timeout = 0;
  del_job_delay = 20;
  jobs = [];
  tracks = no_tracks;
  job_observers = [];
  delayed = [];
  db = db;
}

abbrev pub type_letter : TransferType → String
type_letter upload = "U"
type_letter download = "D"
type_letter (unknown n) = ""

unfoldable pub hash_job : String → String → TransferType → String
hash_job uid pid typ =
    str_append uid (str_append "_" (str_append (type_letter typ) (str_append "_" pid)))

module _ {Db : Type 0} where
  unfoldable pub notify : JobEvent → JobManager Db → JobManager Db
  notify e jm = record jm { job_observers = map (λ calls. calls ++ e ∷ []) jm.job_observers }

  abbrev pub is_cached_at : JobManager Db → String → Bool
  is_cached_at jm jobid = elim (get jm.jobs jobid) [ none ↦ false | some j ↦ true ]

  -- `HasCachedJob`.
  unfoldable pub has_cached_job : JobManager Db → String → Bool
  has_cached_job jm jobid = is_cached_at jm jobid

  -- A change of a job that the caller holds reaches the cache if the job is the cached one.
  unfoldable pub store_job : String → Job → JobManager Db → JobManager Db
  store_job hashid j jm =
      if is_cached_at jm hashid then record jm { jobs = put jm.jobs hashid j } else jm

  unfoldable pub add_job_observer : JobManager Db → JobManager Db
  add_job_observer jm = record jm { job_observers = jm.job_observers ++ [] ∷ [] }

-- ===== src/Examples/Managing.antt =====
-- The job manager over a database that holds one package and no job.
use codemigrate.Prelude.{
  ℕ, String, List, [], ◌∷◌, ◌≡◌, refl, Option, none, some, Bool, true, false, arith,
}
use codemigrate.Prelude.Int.{is_at_most_zero}
use codemigrate.Cydex.{upload, download}
use codemigrate.Errors.{ok}
use codemigrate.Models.{File, Pkg, Job, JobDetail, new_job}
use codemigrate.Models.Engine.{Engine}
use codemigrate.Tracks.{get_pkg_track, get_user_track, add_track, no_tracks}
use codemigrate.Tracks.Consistency.{elem}
use codemigrate.Jobs.{JobManager, new_job_manager}
use codemigrate.Jobs.Lifecycle.{Ending, returns, process_job, finish, recreate_job, wake_delayed}
use codemigrate.Jobs.Restarts.{downloads, wake_delayed-recreate_job}
use codemigrate.Jobs.Runs.{
  Call, create_call, observe_call, wake_call, fetch_deletes_call, run, run_tracks,
}
use codemigrate.Jobs.Finishing.{IsFinishing, process_job_cached, process_job_again}

abbrev pub empty_pkg : String → Pkg
empty_pkg pid = record {
  pid = pid;
  title = "";
  notes = "";
  num_files = 0;
  size = 0;
  encryption_type = 0;
  mtu_size = none;
  files = [];
  has_files = false;
}

abbrev pub engine : Engine
engine = record {
  Db = Unit;
  find_job = λ db h. ok none;
  find_jobs = λ db. ok [];
  find_jobs_by_type = λ db typ. ok [];
  find_jobs_by_pid = λ db pid typ. ok [];
  find_job_detail = λ db h fid. ok none;
  find_job_details = λ db h. ok [];
  count_unfinished = λ db h. ok 0;
  find_pkg = λ db pid. ok (some (empty_pkg pid));
  find_files = λ db pid. ok [];
  find_file = λ db fid. ok none;
  find_seg = λ db sid. ok none;
  save_job_detail = λ db jd. db;
  protect_details = λ db. db;
  save_job = λ db j. db;
  save_seg_state = λ db row s. db;
  begin = λ db. ok db;
  insert_job = λ db j. ok db;
  insert_job_detail = λ db jd. ok db;
  delete_job_detail = λ db jd. ok db;
  delete_job_row = λ db j. db;
  commit = λ db. ok db;
}

abbrev tracking : JobManager Unit
tracking = record (new_job_manager tt) { tracks = add_track no_tracks "u" "p" upload }

run_test :
    run engine
      (λ s. s.total_bytes)
      (create_call 5 "u" "p" upload ∷ wake_call ∷ fetch_deletes_call "u" upload true ∷ [])
      (new_job_manager tt)
    ≡ returns tracking
unfolding run codemigrate.Jobs.Runs.serve codemigrate.Jobs.Lifecycle.create_job
    codemigrate.Models.Engine.get_job_row codemigrate.Jobs.Lifecycle.wake_delayed
    codemigrate.Jobs.notify codemigrate.Tracks.get_track_of_delete add_track
    codemigrate.Prelude.GoMap.get
run_test = refl

run_tracks_example :
    elem "u" (get_pkg_track tracking.tracks "p" upload)
    ≡ elem "p" (get_user_track tracking.tracks "u" upload)
run_tracks_example =
    run_tracks engine (λ s. s.total_bytes)
      (create_call 5 "u" "p" upload ∷ wake_call ∷ fetch_deletes_call "u" upload true ∷ []) tt
      tracking run_test "u" "p" upload

-- A cached job with no details left.
abbrev pub ended : Job
ended = record (new_job "u_U_p" "u" "p" upload) { is_cached = true }

abbrev pub caching : JobManager Unit
caching = record (new_job_manager tt) { jobs = ("u_U_p", ended) ∷ []; job_observers = [] ∷ [] }

process_job_cached_example :
    (is_at_most_zero ended.num_unfinished_details ≡ false
      → process_job engine "u_U_p" caching ≡ caching)
    × (is_at_most_zero ended.num_unfinished_details ≡ true
        → IsFinishing engine "u_U_p" ended caching (process_job engine "u_U_p" caching))
unfolding codemigrate.Prelude.GoMap.get
process_job_cached_example = process_job_cached engine "u_U_p" ended caching refl refl (omega arith)

process_job_again_example :
    IsFinishing engine "u_U_p"
      (finish ended)
      (process_job engine "u_U_p" caching)
      (process_job engine "u_U_p" (process_job engine "u_U_p" caching))
unfolding codemigrate.Prelude.GoMap.get is_at_most_zero
process_job_again_example =
    process_job_again engine "u_U_p" ended caching refl refl refl (omega arith)

-- A download that has finished, and whose deletion is due.
abbrev past : Job
past = new_job "u_D_p" "u" "p" download

abbrev ending : JobManager Unit
ending = record (new_job_manager tt) { delayed = ("u_D_p", past) ∷ [] }

abbrev restarted : JobManager Unit
restarted = record ending { tracks = add_track no_tracks "u" "p" download }

recreate_test : recreate_job engine 9 "u" "p" download past ending ≡ returns restarted
unfolding recreate_job codemigrate.Jobs.notify codemigrate.Prelude.GoMap.delete
recreate_test = refl

wake_delayed-recreate_job_example :
    (downloads "u" "p" restarted.tracks ≡ true)
    × (downloads "u" "p" (wake_delayed engine restarted).tracks ≡ false)
wake_delayed-recreate_job_example =
    wake_delayed-recreate_job engine 9 "u_D_p" past past [] ending restarted refl refl recreate_test

-- ===== src/Jobs/Cache.antt =====
-- pkg/job.go: the cache of jobs and the deletion of tracks, which looks jobs up.
use codemigrate.Prelude.{
  String, List, [], ◌∷◌, Option, none, some, Bool, true, false, not, length, ltb, ◌==◌, nat_eq,
  string_eq, if◌then◌else◌,
}
use codemigrate.Prelude.GoMap.{get, put}
use codemigrate.Prelude.Int.{pos, is_at_most_zero}
use codemigrate.Cydex.{TransferType, upload, is_upload}
use codemigrate.Errors.{ok, err}
use codemigrate.Models.{Job, JobDetail}
use codemigrate.Models.Engine.{
  Engine, get_job_row, is_finished, get_details, count_unfinished_details,
}
use codemigrate.Tracks.{Track, keys, remove_track}
use codemigrate.Jobs.{JobManager, hash_job, store_job}

abbrev pub has_downloads : Option Track → Bool
has_downloads none = false
has_downloads (some t) = ltb 0 (length t.downloads)

-- The early return of `DelTrack`.
abbrev pub stays_tracked : TransferType → Option Track → Bool
stays_tracked typ t = if is_upload typ then has_downloads t else false

module _ (x : Engine) where
  open x use {Db, find_job_detail}

  -- A job that goes into the cache: its details and the count of those that are not done.
  unfoldable pub cached_job : Db → Job → Job
  unfolding get_details
  cached_job db j = record (get_details x db j) {
    num_unfinished_details = pos (count_unfinished_details x db j.job_id);
    is_cached = true;
  }

  unfoldable pub load_job : String → JobManager Db → Job → JobManager Db × Option Job
  load_job hashid jm row =
      let j = record row { details = [] } in
      if is_finished x jm.db j
      then (jm, some j)
      else (record jm { jobs = put jm.jobs hashid (cached_job jm.db j) }, some (cached_job jm.db j))

  -- `getJob`: from the cache, else from the database; an unfinished job goes into the cache.
  unfoldable pub get_job : String → JobManager Db → JobManager Db × Option Job
  unfolding load_job
  get_job hashid jm = elim (get jm.jobs hashid) [
    | some j ↦ (jm, some j)
    | none ↦ elim (get_job_row x jm.db hashid true) [
      | err e ↦ (jm, none)
      | ok none ↦ (jm, none)
      | ok (some row) ↦ load_job hashid jm row
    ]
  ]

  -- `GetJobDetail`: a detail that the job does not hold yet is read, and kept even if it is nil.
  unfoldable pub load_detail :
      String → String → Job → JobManager Db → JobManager Db × Option JobDetail
  load_detail jobid fid j jm = elim (get j.details fid) [
    | some jd ↦ (jm, jd)
    | none ↦ elim (find_job_detail jm.db jobid fid) [
      | err e ↦ (jm, none)
      | ok jd ↦ (store_job jobid (record j { details = put j.details fid jd }) jm, jd)
    ]
  ]

  unfoldable pub get_job_detail : String → String → JobManager Db → JobManager Db × Option JobDetail
  unfolding load_detail
  get_job_detail jobid fid jm =
      let (jm', found) = get_job jobid jm in
      elim found [ none ↦ (jm', none) | some j ↦ load_detail jobid fid j jm' ]

  -- `isJobFinished`: of a cached job by its counter, of any other by a query.
  unfoldable pub is_job_finished : Db → Job → Bool
  is_job_finished db j =
      if not j.is_cached
      then count_unfinished_details x db j.job_id == 0
      else is_at_most_zero j.num_unfinished_details

  abbrev pub is_open_job : Db → Option Job → Bool
  is_open_job db none = false
  is_open_job db (some j) = not (is_job_finished db j)

  -- The loop of `DelTrack` over the uploaders of a package: it stops at the first whose job is
  -- not finished.
  unfoldable pub del_uploaders : String → List String → JobManager Db → JobManager Db
  del_uploaders pid [] jm = jm
  del_uploaders pid (uid ∷ uids) jm =
      let (jm', job) = get_job (hash_job uid pid upload) jm in
      let rest =
        del_uploaders pid uids (record jm' { tracks = remove_track jm'.tracks uid pid upload }) in
      if is_open_job jm'.db job then jm' else rest

  -- `DelTrack`: an uploader stays while the package is being downloaded, and when the last
  -- downloader has gone the uploaders that have finished go too.
  unfoldable pub sweep_uploaders : String → Option Track → JobManager Db → JobManager Db
  unfolding del_uploaders
  sweep_uploaders pid none jm = jm
  sweep_uploaders pid (some t) jm =
      if length t.downloads == 0 then del_uploaders pid (keys t.uploads) jm else jm

  unfoldable pub del_track : String → String → TransferType → JobManager Db → JobManager Db
  unfolding sweep_uploaders
  del_track uid pid typ jm =
      let jm' = record jm { tracks = remove_track jm.tracks uid pid typ } in
      if stays_tracked typ (get jm.tracks.track_pkgs pid)
      then jm
      else sweep_uploaders pid (get jm'.tracks.track_pkgs pid) jm'

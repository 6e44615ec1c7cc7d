-- ===== src/Api/Packages/ActiveCaches.antt =====
-- pkg/job.go and api/controllers/pkg.go: to list the active packages changes only the cache of jobs.
use codemigrate.Prelude.{
  String, List, [], ◌∷◌, refl, Bool, true, false, length, ◌==◌, nat_eq, string_eq, by_if, by_option,
}
use codemigrate.Cydex.{TransferType, upload, download}
use codemigrate.Models.{File, Pkg, Job}
use codemigrate.Models.Engine.{Engine}
use codemigrate.Tracks.{get_user_track, get_pkg_track}
use codemigrate.Jobs.{JobManager}
use codemigrate.Jobs.Cache.{get_job}
use codemigrate.Jobs.Queries.{
  existing_jobs, jobs_of_user, jobs_of_pkg, get_jobs_by_uid, get_jobs_by_pid,
}
use codemigrate.Api.{ApiEngine}
use codemigrate.Api.Packages.{known_states}
use codemigrate.Api.Packages.Active.{
  ActivePkg, loaded, file_states, active_uploads, active_downloads,
}
use codemigrate.Api.Packages.Caching.{
  OnlyCaches, caches_then, get_job-OnlyCaches, known_states-OnlyCaches,
}

module _ (x : Engine) where
  existing_jobs-OnlyCaches :
      (hashids : List String) (jm : JobManager x.Db) → OnlyCaches jm (existing_jobs x hashids jm).0
  unfolding existing_jobs
  existing_jobs-OnlyCaches [] jm = refl
  existing_jobs-OnlyCaches (h ∷ hs) jm =
      let jm1 = (get_job x h jm).0 in
      caches_then jm jm1 _ (get_job-OnlyCaches x h jm) (existing_jobs-OnlyCaches hs jm1)

  pub get_jobs_by_uid-OnlyCaches :
      (uid : String) (typ : TransferType) (jm : JobManager x.Db)
      → OnlyCaches jm (get_jobs_by_uid x uid typ jm).0
  unfolding get_jobs_by_uid
  get_jobs_by_uid-OnlyCaches uid typ jm =
      existing_jobs-OnlyCaches (jobs_of_user x uid typ (get_user_track jm.tracks uid typ)) jm

  pub get_jobs_by_pid-OnlyCaches :
      (pid : String) (typ : TransferType) (jm : JobManager x.Db)
      → OnlyCaches jm (get_jobs_by_pid x pid typ jm).0
  unfolding get_jobs_by_pid
  get_jobs_by_pid-OnlyCaches pid typ jm =
      existing_jobs-OnlyCaches (jobs_of_pkg x pid typ (get_pkg_track jm.tracks pid typ)) jm

module _ (x : ApiEngine) where
  open x use {base}

  file_states-OnlyCaches :
      (with_segs : Bool) (js : List Job) (fs : List File) (jm : JobManager base.Db)
      → OnlyCaches jm (file_states x with_segs js fs jm).0
  unfolding file_states
  file_states-OnlyCaches with_segs js [] jm = refl
  file_states-OnlyCaches with_segs js (f ∷ fs) jm =
      let jm1 = (known_states x js f jm).0 in
      caches_then jm jm1 _ (known_states-OnlyCaches x js f jm)
        (file_states-OnlyCaches with_segs js fs jm1)

  abbrev Cached : JobManager base.Db → JobManager base.Db × Bool × List ActivePkg → Type 0
  Cached jm q = OnlyCaches jm q.0

  pub active_uploads-OnlyCaches :
      (js : List Job) (jm : JobManager base.Db) → OnlyCaches jm (active_uploads x js jm).0
  unfolding active_uploads
  active_uploads-OnlyCaches [] jm = refl
  active_uploads-OnlyCaches (j ∷ js) jm = by_option {A = Pkg} (Cached jm) (loaded j) refl (λ p _.
      let r = get_jobs_by_pid base j.pid download jm in
      let jm2 = (file_states x false r.1 p.files r.0).0 in
      let two =
        caches_then jm r.0 jm2 (get_jobs_by_pid-OnlyCaches base j.pid download jm)
          (file_states-OnlyCaches false r.1 p.files r.0) in
      caches_then jm jm2 _ two (active_uploads-OnlyCaches js jm2))

  pub active_downloads-OnlyCaches :
      (js : List Job) (jm : JobManager base.Db) → OnlyCaches jm (active_downloads x js jm).0
  unfolding active_downloads
  active_downloads-OnlyCaches [] jm = refl
  active_downloads-OnlyCaches (j ∷ js) jm = by_option {A = Pkg} (Cached jm) (loaded j) refl (λ p _.
      let r = get_jobs_by_pid base j.pid upload jm in
      let jm2 = (file_states x true r.1 p.files r.0).0 in
      let one = get_jobs_by_pid-OnlyCaches base j.pid upload jm in
      let two = caches_then jm r.0 jm2 one (file_states-OnlyCaches true r.1 p.files r.0) in
      by_if (Cached jm) (length r.1 == 0) (λ _. one)
        (λ _. caches_then jm jm2 _ two (active_downloads-OnlyCaches js jm2)))

-- ===== src/Api/Packages/Caching.antt =====
-- pkg/job.go and api/controllers/pkg.go: to show packages changes only the cache of jobs.
use codemigrate.Prelude.{
  String, List, [], ◌∷◌, ◌≡◌, refl, ◌∙◌, ap, Option, none, some, true, nat_eq, string_eq, by_if,
  by_option,
}
use codemigrate.Prelude.GoMap.{get}
use codemigrate.Cydex.{upload, download}
use codemigrate.Errors.{by_result}
use codemigrate.Models.{File, Pkg, Job, JobDetail}
use codemigrate.Models.Engine.{Engine, get_job_row, is_finished}
use codemigrate.Jobs.{JobManager, store_job, is_cached_at}
use codemigrate.Jobs.Cache.{get_job, load_job, load_detail, get_job_detail}
use codemigrate.Api.{Code, ApiEngine}
use codemigrate.Api.Packages.{
  Shown, FileView, PkgView, known_states, all_states, file_views, aggregate, aggregate_found,
  get_files,
}
use codemigrate.Api.Packages.Queries.{show_file}

-- The job manager is as it was, but for its cache of jobs.
abbrev pub OnlyCaches : {Db : Type 0} → JobManager Db → JobManager Db → Type 0
OnlyCaches jm jm' = jm' ≡ record jm { jobs = jm'.jobs }

pub caches_then :
    {Db : Type 0} (jm1 jm2 jm3 : JobManager Db)
    → OnlyCaches jm1 jm2
    → OnlyCaches jm2 jm3
    → OnlyCaches jm1 jm3
caches_then {Db} jm1 jm2 jm3 h k = k ∙ ap {A = JobManager Db} (λ m. record m { jobs = jm3.jobs }) h

module _ (x : Engine) where
  pub get_job-OnlyCaches :
      (jobid : String) (jm : JobManager x.Db) → OnlyCaches jm (get_job x jobid jm).0
  unfolding get_job load_job
  get_job-OnlyCaches jobid jm =
      let P : JobManager x.Db × Option Job → Type 0 = λ q. OnlyCaches jm q.0 in
      by_option P (get jm.jobs jobid)
        (by_result P (get_job_row x jm.db jobid true) (λ e _. refl)
          (λ found _. by_option P found refl (λ row _.
            by_if P (is_finished x jm.db (record row { details = [] })) (λ _. refl) (λ _. refl))))
        (λ j e. refl)

  store_job-OnlyCaches :
      (jobid : String) (j : Job) (jm : JobManager x.Db) → OnlyCaches jm (store_job jobid j jm)
  unfolding store_job
  store_job-OnlyCaches jobid j jm =
      by_if (OnlyCaches jm) (is_cached_at jm jobid) (λ _. refl) (λ _. refl)

  get_job_detail-OnlyCaches :
      (jobid fid : String) (jm : JobManager x.Db) → OnlyCaches jm (get_job_detail x jobid fid jm).0
  unfolding get_job_detail load_detail
  get_job_detail-OnlyCaches jobid fid jm =
      let P : JobManager x.Db × Option JobDetail → Type 0 = λ q. OnlyCaches jm q.0 in
      let jm1 = (get_job x jobid jm).0 in
      let one = get_job-OnlyCaches jobid jm in
      by_option P (get_job x jobid jm).1 one (λ j _.
        by_option P (get j.details fid)
          (by_result P (x.find_job_detail jm1.db jobid fid) (λ e _. one)
            (λ jd _. caches_then jm jm1 _ one (store_job-OnlyCaches jobid _ jm1)))
          (λ jd _. one))

module _ (x : ApiEngine) where
  open x use {base}

  all_states-OnlyCaches :
      (js : List Job) (f : File) (jm : JobManager base.Db) → OnlyCaches jm (all_states x js f jm).0
  unfolding all_states
  all_states-OnlyCaches [] f jm = refl
  all_states-OnlyCaches (j ∷ js) f jm =
      let P : JobManager base.Db × Option (List Shown) → Type 0 = λ q. OnlyCaches jm q.0 in
      let jm1 = (get_job_detail base j.job_id f.fid jm).0 in
      let one = get_job_detail-OnlyCaches base j.job_id f.fid jm in
      let both = caches_then jm jm1 _ one (all_states-OnlyCaches js f jm1) in
      by_option P (get_job_detail base j.job_id f.fid jm).1 one
        (λ jd _. by_option P (all_states x js f jm1).1 both (λ l _. both))

  pub known_states-OnlyCaches :
      (js : List Job) (f : File) (jm : JobManager base.Db)
      → OnlyCaches jm (known_states x js f jm).0
  unfolding known_states
  known_states-OnlyCaches [] f jm = refl
  known_states-OnlyCaches (j ∷ js) f jm =
      let jm1 = (get_job_detail base j.job_id f.fid jm).0 in
      caches_then jm jm1 _ (get_job_detail-OnlyCaches base j.job_id f.fid jm)
        (known_states-OnlyCaches js f jm1)

  file_views-OnlyCaches :
      (downs ups : List Job) (fs : List File) (jm : JobManager base.Db)
      → OnlyCaches jm (file_views x downs ups fs jm).0
  unfolding file_views
  file_views-OnlyCaches downs ups [] jm = refl
  file_views-OnlyCaches downs ups (f ∷ fs) jm =
      let P : JobManager base.Db × Option (List FileView) → Type 0 = λ q. OnlyCaches jm q.0 in
      let jm1 = (all_states x downs f jm).0 in
      let jm2 = (all_states x ups f jm1).0 in
      let one = all_states-OnlyCaches downs f jm in
      let two = caches_then jm jm1 jm2 one (all_states-OnlyCaches ups f jm1) in
      let three = caches_then jm jm2 _ two (file_views-OnlyCaches downs ups fs jm2) in
      by_option P (all_states x downs f jm).1 one (λ d _.
        by_option P (all_states x ups f jm1).1 two
          (λ u _. by_option P (file_views x downs ups fs jm2).1 three (λ l _. three)))

  pub aggregate-OnlyCaches :
      (p : Option Pkg) (jm : JobManager base.Db) → OnlyCaches jm (aggregate_found x p jm).0
  unfolding aggregate_found aggregate
  aggregate-OnlyCaches none jm = refl
  aggregate-OnlyCaches (some p) jm =
      let P : JobManager base.Db × Option PkgView → Type 0 = λ q. OnlyCaches jm q.0 in
      by_option P (get_files x jm.db p.pid) refl (λ fs _.
        by_result P (base.find_jobs_by_pid jm.db p.pid download) (λ e _. refl)
          (λ downs _.
            by_result P (base.find_jobs_by_pid jm.db p.pid upload) (λ e _. refl)
              (λ ups _. file_views-OnlyCaches downs ups fs jm)))

  pub show_file-OnlyCaches :
      (pid : String) (f : File) (jm : JobManager base.Db) → OnlyCaches jm (show_file x pid f jm).0
  unfolding show_file
  show_file-OnlyCaches pid f jm =
      let P : JobManager base.Db × Code × Option FileView → Type 0 = λ q. OnlyCaches jm q.0 in
      by_result P (base.find_jobs_by_pid jm.db pid upload) (λ e _. refl)
        (λ ups _.
          let jm1 = (known_states x ups f jm).0 in
          let one = known_states-OnlyCaches ups f jm in
          by_result P (base.find_jobs_by_pid jm1.db pid download) (λ e _. one)
            (λ downs _. caches_then jm jm1 _ one (known_states-OnlyCaches downs f jm1)))

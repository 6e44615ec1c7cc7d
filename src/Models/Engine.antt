-- ===== src/Models/Engine.antt =====
-- The queries and writes that pkg/models/*.go hands to the database engine, a library outside the
-- repository, and the model functions over them. A query may fail; a write whose error every caller
-- drops is a function of the database alone.
use codemigrate.Prelude.{
  ℕ, String, List, [], ◌∷◌, Option, none, some, Bool, true, false, ltb, ◌==◌, nat_eq, string_eq,
  if◌then◌else◌,
}
use codemigrate.Prelude.GoMap.{GoMap, put}
use codemigrate.Cydex.{TransferType, TransferState}
use codemigrate.Errors.{Result, ok, err}
use codemigrate.Models.{File, SegRow, Pkg, JobDetail, Job}

pub record Engine : Type 1 where
  pub Db : Type 0
  pub find_job : Db → String → Result (Option Job)
  pub find_jobs : Db → Result (List Job)
  pub find_jobs_by_type : Db → TransferType → Result (List Job)
  pub find_jobs_by_pid : Db → String → TransferType → Result (List Job)
  pub find_job_detail : Db → String → String → Result (Option JobDetail)
  pub find_job_details : Db → String → Result (List JobDetail)
  pub count_unfinished : Db → String → Result ℕ
  pub find_pkg : Db → String → Result (Option Pkg)
  pub find_files : Db → String → Result (List File)
  pub find_file : Db → String → Result (Option File)
  pub find_seg : Db → String → Result (Option SegRow)
  pub save_job_detail : Db → JobDetail → Db
  pub protect_details : Db → Db
  pub save_job : Db → Job → Db
  pub save_seg_state : Db → SegRow → TransferState → Db
  pub begin : Db → Result Db
  pub insert_job : Db → Job → Result Db
  pub insert_job_detail : Db → JobDetail → Result Db
  pub delete_job_detail : Db → JobDetail → Result Db
  pub delete_job_row : Db → Job → Db
  pub commit : Db → Result Db

-- A list whose query failed is nil.
abbrev pub or_nil {ℓ} : {A : Type ℓ} → Result (List A) → List A
or_nil (ok l) = l
or_nil (err e) = []

abbrev pub is_read {ℓ} : {A : Type ℓ} → Result A → Bool
is_read (ok a) = true
is_read (err e) = false

abbrev pub or_missing {ℓ} : {A : Type ℓ} → Result (Option A) → Option A
or_missing (ok o) = o
or_missing (err e) = none

abbrev with_pkg_error : Result (Option Pkg) → Job → Result (Option Job)
with_pkg_error (ok p) j = ok (some (record j { pkg = p }))
with_pkg_error (err e) j = err e

-- `for _, jd := range jds { self.Details[jd.Fid] = jd }`
unfoldable pub index_details :
    GoMap String (Option JobDetail) → List JobDetail → GoMap String (Option JobDetail)
index_details m [] = m
index_details m (jd ∷ jds) = index_details (put m jd.fid (some jd)) jds

module _ (x : Engine) where
  open x use {
    Db, find_job, find_jobs, find_jobs_by_pid, find_job_details, count_unfinished, find_pkg,
    find_files, find_file, find_seg, begin, delete_job_detail, delete_job_row, commit,
  }

  -- `GetPkg` drops the error of its query for the files.
  unfoldable pub get_pkg : Db → String → Result (Option Pkg)
  get_pkg db pid = elim (find_pkg db pid) [
    | err e ↦ err e
    | ok none ↦ ok none
    | ok (some p) ↦
        let found = find_files db pid in
        ok (some (record p { files = or_nil found; has_files = is_read found }))
  ]

  -- `GetJob`: a failed query counts as a missing job.
  unfoldable pub get_job_row : Db → String → Bool → Result (Option Job)
  unfolding get_pkg
  get_job_row db jobid with_pkg = elim (or_missing (find_job db jobid)) [
    | none ↦ ok none
    | some j ↦ if with_pkg then with_pkg_error (get_pkg db j.pid) j else ok (some j)
  ]

  -- `job, _ := GetJob(hashid, true)`: a job whose package cannot be read is returned with the error, and
  -- whoever drops the error keeps the job.
  unfoldable pub held_job : Db → String → Option Job
  unfolding get_pkg
  held_job db jobid = elim (or_missing (find_job db jobid)) [
    | none ↦ none
    | some j ↦ some (record j { pkg = or_missing (get_pkg db j.pid) })
  ]

  -- `n, _ := CountUnfinishedJobDetails(…)`: a failed query counts as none unfinished.
  unfoldable pub count_unfinished_details : Db → String → ℕ
  count_unfinished_details db jobid = elim (count_unfinished db jobid) [ ok n ↦ n | err e ↦ 0 ]

  unfoldable pub is_finished : Db → Job → Bool
  unfolding count_unfinished_details
  is_finished db j = count_unfinished_details db j.job_id == 0

  unfoldable pub get_details : Db → Job → Job
  unfolding index_details
  get_details db j = record j {
    details = index_details j.details (or_nil (find_job_details db j.job_id));
  }

  -- The jobs with details that are not done; a job whose count fails is left out.
  unfoldable pub keep_unfinished : Db → List Job → List Job
  keep_unfinished db [] = []
  keep_unfinished db (j ∷ js) =
      let rest = keep_unfinished db js in
      elim (count_unfinished db j.job_id) [
        | err e ↦ rest
        | ok n ↦ if ltb 0 n then j ∷ rest else rest
      ]

  unfoldable pub get_un_finished_jobs : Db → Result (List Job)
  unfolding keep_unfinished
  get_un_finished_jobs db = elim (find_jobs db) [
    | err e ↦ err e
    | ok js ↦ ok (keep_unfinished db js)
  ]

  unfoldable pub delete_details : Db → List JobDetail → Result Db
  delete_details s [] = ok s
  delete_details s (jd ∷ jds) = elim (delete_job_detail s jd) [
    | err e ↦ err e
    | ok s' ↦ delete_details s' jds
  ]

  -- `DeleteJob`: the rows of a job and of its details go in one transaction, and an error before the
  -- commit leaves the database as it was.
  unfoldable pub delete_job : Db → String → Result Db
  unfolding delete_details
  delete_job db jobid = elim (find_job db jobid) [
    | err e ↦ err e
    | ok none ↦ ok db
    | ok (some j) ↦ elim (begin db) [
      | err e ↦ err e
      | ok s ↦ elim (find_job_details s jobid) [
        | err e ↦ err e
        | ok jds ↦ elim (delete_details s jds) [
          | err e ↦ err e
          | ok s' ↦ commit (delete_job_row s' j)
        ]
      ]
    ]
  ]

-- ===== src/Api/Packages/Queries.antt =====
-- api/controllers/pkg.go: queries for packages and files.
use codemigrate.Prelude.{
  ℕ, String, List, [], ◌∷◌, Option, none, some, true, ◌==◌, nat_eq, string_eq, not, if◌then◌else◌,
}
use codemigrate.Cydex.{TransferType, upload, download}
use codemigrate.Errors.{Result, ok, err}
use codemigrate.Models.{File, Pkg, Job}
use codemigrate.Models.Engine.{or_missing, or_nil, get_pkg, get_job_row, held_job}
use codemigrate.Nodes.{Outcome, returns, panics, and_then}
use codemigrate.Jobs.{JobManager, hash_job}
use codemigrate.Api.{
  UserLevel, is_admin, Code, fine, not_allowed, invalid_param, inner_server, package_not_existed,
  Page, JobFilter, ApiEngine,
}
use codemigrate.Api.Packages.{PkgView, FileView, file_view, known_states, aggregate_found}

pub record QueryPkgRsp : Type 0 where
  pub error : Code
  pub pkgs : List PkgView
  pub total_num : ℕ

pub record PkgLite : Type 0 where
  pub pid : String
  pub title : String
  pub notes : String
  pub num_files : ℕ
  pub size : ℕ
  pub sender : List String
  pub receiver : List String

pub record QueryPkgLiteRsp : Type 0 where
  pub error : Code
  pub pkgs : List PkgLite
  pub total_num : ℕ

-- The total is told if a page was asked for.
abbrev pub total_shown : Option Page → ℕ → ℕ
total_shown none n = 0
total_shown (some page) n = n

abbrev uids : List Job → List String
uids [] = []
uids (j ∷ js) = j.uid ∷ uids js

module _ (x : ApiEngine) where
  open x use {base, find_jobs_of, find_jobs_by_uid, find_jobs_ex}

  -- The loop over jobs: it stops at the first whose package cannot be shown, and keeps what it has.
  unfoldable pub show_jobs :
      List Job → JobManager base.Db → JobManager base.Db × Code × List PkgView
  show_jobs [] jm = (jm, fine, [])
  show_jobs (j ∷ js) jm =
      let (jm1, view) = aggregate_found x (or_missing (get_pkg base jm.db j.pid)) jm in
      let (jm2, code, rest) = show_jobs js jm1 in
      elim view [ none ↦ (jm1, inner_server, []) | some v ↦ (jm2, code, v ∷ rest) ]

  -- The response to a query of jobs.
  unfoldable pub answer_jobs :
      Option Page → Result (List Job × ℕ) → JobManager base.Db → JobManager base.Db × QueryPkgRsp
  unfolding show_jobs
  answer_jobs page (err e) jm = (jm, record { error = inner_server; pkgs = []; total_num = 0 })
  answer_jobs page (ok (js, n)) jm =
      let (jm', code, l) = show_jobs js jm in
      (
        jm',
        record {
          error = code;
          pkgs = l;
          total_num = elim code [ fine ↦ total_shown page n | other ↦ 0 ];
        },
      )

  -- `getAllJobs`.
  unfoldable pub get_all_jobs :
      UserLevel → Option Page → JobManager base.Db → JobManager base.Db × QueryPkgRsp
  unfolding answer_jobs
  get_all_jobs level page jm =
      if is_admin level
      then answer_jobs page (find_jobs_of jm.db upload page) jm
      else (jm, record { error = not_allowed; pkgs = []; total_num = 0 })

  -- `getJobs`: an administrator gets nothing.
  unfoldable pub get_jobs :
      UserLevel
      → String
      → TransferType
      → Option Page
      → JobManager base.Db
      → JobManager base.Db × QueryPkgRsp
  unfolding answer_jobs
  get_jobs level uid typ page jm =
      if is_admin level
      then (jm, record { error = fine; pkgs = []; total_num = 0 })
      else answer_jobs page (find_jobs_by_uid jm.db uid typ page) jm

  abbrev lite : base.Db → Pkg → PkgLite
  lite db p = record {
    pid = p.pid;
    title = p.title;
    notes = p.notes;
    num_files = p.num_files;
    size = p.size;
    sender = uids (or_nil (base.find_jobs_by_pid db p.pid upload));
    receiver = uids (or_nil (base.find_jobs_by_pid db p.pid download));
  }

  -- A package that cannot be read is nil, and read all the same: a panic.
  unfoldable pub lite_pkgs : base.Db → List Job → Outcome (List PkgLite)
  lite_pkgs db [] = returns []
  lite_pkgs db (j ∷ js) =
      let rest = lite_pkgs db js in
      elim (or_missing (get_pkg base db j.pid)) [
        | none ↦ panics
        | some p ↦ and_then rest (λ l. returns (lite db p ∷ l))
      ]

  unfoldable pub answer_lite :
      base.Db → Option Page → Result (List Job × ℕ) → Outcome QueryPkgLiteRsp
  unfolding lite_pkgs
  answer_lite db page (err e) = returns (record { error = inner_server; pkgs = []; total_num = 0 })
  answer_lite db page (ok (js, n)) =
      and_then (lite_pkgs db js)
        (λ l. returns (record { error = fine; pkgs = l; total_num = total_shown page n }))

  -- `getLitePkgs`.
  unfoldable pub get_lite_pkgs :
      UserLevel → String → String → Option Page → JobFilter → base.Db → Outcome QueryPkgLiteRsp
  unfolding answer_lite
  get_lite_pkgs level uid query page filter db =
      if query == "admin"
      then (if is_admin level
          then answer_lite db page (find_jobs_ex db upload page filter)
          else returns (record { error = not_allowed; pkgs = []; total_num = 0 }))
      else if query == "sender"
      then answer_lite db page (find_jobs_by_uid db uid upload page)
      else if query == "receiver"
      then answer_lite db page (find_jobs_by_uid db uid download page)
      else returns (record { error = invalid_param; pkgs = []; total_num = 0 })

  -- The first of two jobs of the user for the package that can be read.
  unfoldable pub either_job : String → String → TransferType → TransferType → base.Db → Option Job
  either_job uid pid first second db =
      elim (or_missing (get_job_row base db (hash_job uid pid first) true)) [
        | some j ↦ some j
        | none ↦ or_missing (get_job_row base db (hash_job uid pid second) true)
      ]

  -- `aggregate` of the package of a job, its error dropped.
  unfoldable pub show_job : Job → JobManager base.Db → JobManager base.Db × Code × Option PkgView
  show_job j jm =
      let (jm', view) = aggregate_found x (or_missing (get_pkg base jm.db j.pid)) jm in
      (jm', fine, view)

  abbrev pub show_or :
      Code → Option Job → JobManager base.Db → JobManager base.Db × Code × Option PkgView
  show_or code none jm = (jm, code, none)
  show_or code (some j) jm = show_job j jm

  abbrev pub first_of : List Job → Option Job
  first_of [] = none
  first_of (j ∷ js) = some j

  -- `PkgController.Get`.
  unfoldable pub get_single_pkg :
      UserLevel → String → String → JobManager base.Db → JobManager base.Db × Code × Option PkgView
  unfolding show_job either_job
  get_single_pkg level uid pid jm =
      if is_admin level
      then show_or package_not_existed (first_of (or_nil (base.find_jobs_by_pid jm.db pid upload)))
          jm
      else show_or not_allowed (either_job uid pid upload download jm.db) jm

  -- The rest of `FileController.Get`: how far the jobs of the package are with the file. The mode is not
  -- shown.
  unfoldable pub show_file :
      String → File → JobManager base.Db → JobManager base.Db × Code × Option FileView
  show_file pid f jm = elim (base.find_jobs_by_pid jm.db pid upload) [
    | err e ↦ (jm, inner_server, none)
    | ok ups ↦
        let (jm1, us) = known_states x ups f jm in
        elim (base.find_jobs_by_pid jm1.db pid download) [
          | err e ↦ (jm1, inner_server, none)
          | ok downs ↦
              let (jm2, ds) = known_states x downs f jm1 in
              (jm2, fine, some (record (file_view x jm.db f ds us) { mode = 0 }))
        ]
  ]

  -- The loop over the two types of `FileController.Get`, which drops the error of `GetJob`.
  unfoldable pub either_held : String → String → TransferType → TransferType → base.Db → Option Job
  either_held uid pid first second db = elim (held_job base db (hash_job uid pid first)) [
    | some j ↦ some j
    | none ↦ held_job base db (hash_job uid pid second)
  ]

  -- The job by which the user may see files of the package.
  unfoldable pub job_for_file : UserLevel → String → String → base.Db → Option Job
  unfolding either_held
  job_for_file level uid pid db =
      if is_admin level
      then first_of (or_nil (base.find_jobs_by_pid db pid upload))
      else either_held uid pid download upload db

  -- `FileController.Get`.
  unfoldable pub get_file :
      UserLevel
      → String
      → String
      → String
      → JobManager base.Db
      → JobManager base.Db × Code × Option FileView
  unfolding show_file job_for_file
  get_file level uid pid fid jm = elim (or_missing (base.find_file jm.db fid)) [
    | none ↦ (jm, package_not_existed, none)
    | some f ↦
        if not (f.pid == pid)
        then (jm, package_not_existed, none)
        else elim (job_for_file level uid pid jm.db) [
          | none ↦ (jm, package_not_existed, none)
          | some j ↦ show_file pid f jm
        ]
  ]

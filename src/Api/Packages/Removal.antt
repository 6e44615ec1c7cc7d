-- ===== src/Api/Packages/Removal.antt =====
-- api/controllers/pkg.go: receivers are added and removed, and packages deleted. What a handler leaves to
-- goroutines is returned as a list.
use mathlib.Core.Option
use codemigrate.Prelude.{
  ℕ, String, List, [], ◌∷◌, Option, none, some, Bool, true, false, ◌==◌, nat_eq, string_eq, length,
  if◌then◌else◌,
}
use codemigrate.Prelude.GoMap.{GoMap}
use codemigrate.Cydex.{upload, download, is_upload}
use codemigrate.Errors.{ok, err}
use codemigrate.TaskTypes.{Task}
use codemigrate.Models.{Pkg, Job}
use codemigrate.Models.Engine.{or_missing, or_nil, get_pkg, get_job_row, held_job}
use codemigrate.Nodes.{Outcome, returns, panics}
use codemigrate.Jobs.{JobManager, hash_job}
use codemigrate.Jobs.Lifecycle
use codemigrate.Jobs.Lifecycle.{Ending, nil_panic, remove_job}
use codemigrate.Jobs.Cache.{del_track}
use codemigrate.Api.{UserLevel, is_admin, Code, fine, invalid_param, package_not_existed, ApiEngine}
use codemigrate.Api.Packages.{PkgView, aggregate_found}
use codemigrate.Api.Packages.Creation.{create_downloads}

-- Work of goroutines: the tasks of a job are told to stop, and nodes to remove the files of jobs.
pub data Spawned : Type 0 where
  stop_tasks : String → Spawned
  free_pkg_spaces : List Job → Spawned

pub record ModifyPkgReq : Type 0 where
  pub add_list : List String
  pub remove_list : List String

pub record ModifyPkgRsp : Type 0 where
  pub error : Code
  pub pkg : Option PkgView

pub record DelPkgsRsp : Type 0 where
  pub error : Code
  pub num_del_pkgs : ℕ

-- `j[0]` of a list that is not empty.
abbrev pub first_job : List Job → Option Job
first_job [] = none
first_job (j ∷ js) = some j

-- Whether a task of the cache is of the package. The cache holds a nil task where one was asked for that
-- there is not, and to read its package is a panic, `none`.
unfoldable pub in_transfer : String → GoMap String (Option Task) → Option Bool
in_transfer pid [] = some false
in_transfer pid ((id, none) ∷ ts) = none
in_transfer pid ((id, some t) ∷ ts) = if pid == t.pid then some true else in_transfer pid ts

-- `isJobsTransferring`.
unfoldable pub is_jobs_transferring : List Job → GoMap String (Option Task) → Option (List Bool)
unfolding in_transfer
is_jobs_transferring [] tasks = some []
is_jobs_transferring (j ∷ js) tasks =
    let rest = is_jobs_transferring js tasks in
    elim (in_transfer j.pid tasks) [ none ↦ none | some b ↦ Option.map (λ bs. b ∷ bs) rest ]

-- The jobs that are not being transferred.
unfoldable pub avail_jobs : List Job → List Bool → List Job
avail_jobs [] bs = []
avail_jobs (j ∷ js) [] = []
avail_jobs (j ∷ js) (b ∷ bs) = let rest = avail_jobs js bs in if b then rest else j ∷ rest

abbrev pub stop_all : String → List String → List Spawned
stop_all pid [] = []
stop_all pid (uid ∷ uids) = stop_tasks (hash_job uid pid download) ∷ stop_all pid uids

module _ (x : ApiEngine) where
  open x use {base, soft_delete}

  -- The job of uploading the package: the user's own, or for an administrator the first.
  unfoldable pub upload_job : UserLevel → String → String → base.Db → Option Job
  upload_job level uid pid db =
      if is_admin level
      then first_job (or_nil (base.find_jobs_by_pid db pid upload))
      else or_missing (get_job_row base db (hash_job uid pid upload) false)

  -- The loop over the list of receivers to remove.
  unfoldable pub remove_downloads : List String → String → JobManager base.Db → JobManager base.Db
  remove_downloads [] pid jm = jm
  remove_downloads (uid ∷ uids) pid jm =
      remove_downloads uids pid (remove_job base uid pid download jm).0

  abbrev pub modified : Option Pkg → JobManager base.Db → JobManager base.Db × ModifyPkgRsp
  modified p jm =
      let (jm', view) = aggregate_found x p jm in (jm', record { error = fine; pkg = view })

  unfoldable pub modify_pkg :
      ℕ
      → String
      → ModifyPkgReq
      → Job
      → JobManager base.Db
      → Outcome (JobManager base.Db × ModifyPkgRsp × List Spawned)
  unfolding remove_downloads
  modify_pkg now pid req j jm = elim (create_downloads x now req.add_list pid jm) [
    | nil_panic ↦ panics
    | Lifecycle.returns jm' ↦
        let (jm'', rsp) =
          modified (or_missing (get_pkg base jm.db j.pid))
            (remove_downloads req.remove_list pid jm') in
        returns (jm'', rsp, stop_all pid req.remove_list)
  ]

  -- `PkgController.Put`.
  unfoldable pub put_pkg :
      ℕ
      → UserLevel
      → String
      → String
      → Option ModifyPkgReq
      → JobManager base.Db
      → Outcome (JobManager base.Db × ModifyPkgRsp × List Spawned)
  unfolding upload_job modify_pkg
  put_pkg now level uid pid none jm = returns (jm, record { error = invalid_param; pkg = none }, [])
  put_pkg now level uid pid (some req) jm = elim (upload_job level uid pid jm.db) [
    | none ↦ returns (jm, record { error = package_not_existed; pkg = none }, [])
    | some j ↦ modify_pkg now pid req j jm
  ]

  unfoldable pub remove_jobs : List Job → JobManager base.Db → JobManager base.Db
  remove_jobs [] jm = jm
  remove_jobs (j ∷ js) jm = remove_jobs js (remove_job base j.uid j.pid download jm).0

  -- `SoftDelete(SOFT_DELETE_TAG)`, of an upload only.
  abbrev pub tag_deleted : Job → JobManager base.Db → JobManager base.Db
  tag_deleted j jm = if is_upload j.typ then record jm { db = soft_delete jm.db j 1 } else jm

  -- `deleteJob`: the job is marked deleted, and the jobs of downloading its package are deleted.
  unfoldable pub delete_upload_job : Job → JobManager base.Db → JobManager base.Db
  unfolding remove_jobs
  delete_upload_job j jm =
      let jm' = tag_deleted j jm in
      del_track base j.uid j.pid j.typ
        (remove_jobs (or_nil (base.find_jobs_by_pid jm'.db j.pid download)) jm')

  unfoldable pub delete_upload_jobs : List Job → JobManager base.Db → JobManager base.Db
  unfolding delete_upload_job
  delete_upload_jobs [] jm = jm
  delete_upload_jobs (j ∷ js) jm = delete_upload_jobs js (delete_upload_job j jm)

  -- A job whose package can be read as well.
  abbrev pub with_pkg : base.Db → Option Job → Option Job
  with_pkg db none = none
  with_pkg db (some j) = elim (or_missing (get_pkg base db j.pid)) [ none ↦ none | some p ↦ some j ]

  -- `PkgController.Delete`: the tasks of the job are told to stop.
  unfoldable pub delete_pkg :
      UserLevel → String → String → JobManager base.Db → JobManager base.Db × Code × List Spawned
  unfolding upload_job delete_upload_job
  delete_pkg level uid pid jm = elim (with_pkg jm.db (upload_job level uid pid jm.db)) [
    | none ↦ (jm, package_not_existed, [])
    | some j ↦ (delete_upload_job j jm, fine, stop_tasks j.job_id ∷ free_pkg_spaces (j ∷ []) ∷ [])
  ]

  -- The user's own jobs of uploading the packages.
  unfoldable pub own_jobs : String → List String → base.Db → List Job
  own_jobs uid [] db = []
  own_jobs uid (pid ∷ pids) db =
      let rest = own_jobs uid pids db in
      elim (held_job base db (hash_job uid pid upload)) [ none ↦ rest | some j ↦ j ∷ rest ]

  -- The first uploader of each package, for an administrator. The list that a query finds is never nil, and
  -- if it is empty, then to take its first element is a panic, `none`.
  unfoldable pub first_jobs : List String → base.Db → Option (List Job)
  first_jobs [] db = some []
  first_jobs (pid ∷ pids) db =
      let rest = first_jobs pids db in
      elim (base.find_jobs_by_pid db pid upload) [
        | err e ↦ rest
        | ok found ↦ elim found [ [] ↦ none | j ∷ js ↦ Option.map (λ l. j ∷ l) rest ]
      ]

  unfoldable pub delete_avail :
      GoMap String (Option Task)
      → JobManager base.Db
      → List Job
      → Outcome (JobManager base.Db × DelPkgsRsp × List Spawned)
  unfolding is_jobs_transferring avail_jobs delete_upload_jobs
  delete_avail tasks jm jobs =
      elim (Option.map (avail_jobs jobs) (is_jobs_transferring jobs tasks)) [
        | none ↦ panics
        | some avail ↦ returns (
          delete_upload_jobs avail jm,
          record { error = fine; num_del_pkgs = length avail },
          free_pkg_spaces avail ∷ [],
        )
      ]

  abbrev pub not_deleted :
      JobManager base.Db → Outcome (JobManager base.Db × DelPkgsRsp × List Spawned)
  not_deleted jm = returns (jm, record { error = invalid_param; num_del_pkgs = 0 }, [])

  -- `PkgsController.Delete`.
  unfoldable pub delete_pkgs :
      UserLevel
      → String
      → Option (List String)
      → GoMap String (Option Task)
      → JobManager base.Db
      → Outcome (JobManager base.Db × DelPkgsRsp × List Spawned)
  unfolding own_jobs first_jobs delete_avail
  delete_pkgs level uid body tasks jm = if uid == "" then not_deleted jm else elim body [
    | none ↦ not_deleted jm
    | some pids ↦
        if length pids == 0
        then not_deleted jm
        else if is_admin level
        then elim (first_jobs pids jm.db) [ none ↦ panics | some jobs ↦ delete_avail tasks jm jobs ]
        else delete_avail tasks jm (own_jobs uid pids jm.db)
  ]

-- ===== src/Api/Packages/Freeing.antt =====
-- api/controllers/pkg.go: nodes are asked to remove the files of deleted packages. The goroutines of the
-- files run one after the other; whether a node answers in time makes no difference to what follows.
use codemigrate.Prelude.{
  ℕ, String, List, [], ◌∷◌, ◌++◌, Option, none, some, ◌==◌, nat_eq, if◌then◌else◌,
}
use codemigrate.Errors.{Result, ok, err}
use codemigrate.Models.{File, Job}
use codemigrate.Models.Engine.{or_missing, get_pkg}
use codemigrate.Nodes.{Outcome, returns, panics, and_then, NodeManager}
use codemigrate.Nodes.Messages.{send_request, end_request}
use codemigrate.Schedulers.Default
use codemigrate.Schedulers.Default.{Url}
use codemigrate.Tasks.{TaskEngine}
use codemigrate.Tasks.Downloads.{DownloadReq}
use codemigrate.Api.{ApiEngine, FileFlags, SiteOf}
use codemigrate.Api.Transfers.{TransferReq, FileDetail, Caller, get_file_detail}
use codemigrate.Api.Transfers.Downloads.{build_task_download_req}
use codemigrate.Api.Packages.{get_files}

-- `transfer.RemoveFileReq`.
pub record RemoveFileReq : Type 0 where
  pub uid : String
  pub pid : String
  pub fid : String
  pub file_storage : String
  pub file_detail : Option FileDetail

-- A request that was sent to a node.
abbrev pub Removal : Type 0
Removal = ℕ × RemoveFileReq

-- No segments are asked for, and no bitrate.
abbrev pub whole_file : String → TransferReq
whole_file fid = record {
  fid = fid;
  from = "";
  seg_ids = [];
  finished_size = 0;
  num_finished_segs = 0;
  max_bitrate = 0;
}

abbrev pub files_of : Option (List File) → List File
files_of none = []
files_of (some fs) = fs

module _ (x : ApiEngine) (flags : FileFlags) (tx : TaskEngine) {NodeDb : Type 0}
    (parse : String → Result Url) where
  open x use {base, soft_delete}

  abbrev with_nodes : NodeManager NodeDb → SiteOf x tx NodeDb → SiteOf x tx NodeDb
  with_nodes nm site = record site { system = record (site.system) { nodes = nm } }

  unfoldable pub send_removal :
      ℕ → RemoveFileReq → SiteOf x tx NodeDb → SiteOf x tx NodeDb × List Removal
  send_removal u req site =
      let (nodes, sent) = send_request u site.system.nodes in
      elim sent [
        | none ↦ (with_nodes nodes site, [])
        | some seq ↦ (with_nodes (end_request u seq nodes) site, (u, req) ∷ [])
      ]

  -- The node of a download of the file, if there is one, is asked to remove it.
  unfoldable pub dispatch_removal :
      Job
      → File
      → Option FileDetail
      → DownloadReq
      → SiteOf x tx NodeDb
      → SiteOf x tx NodeDb × List Removal
  unfolding send_removal
  dispatch_removal j f detail req site =
      let (scheduler, chosen) =
        Default.dispatch_download parse site.system.nodes req.file_storage site.system.scheduler in
      let site' = record site { system = record (site.system) { scheduler = scheduler } } in
      elim chosen [
        | err e ↦ (site', [])
        | ok none ↦ (site', [])
        | ok (some u) ↦
            send_removal u
              (record {
                uid = j.uid;
                pid = j.pid;
                fid = f.fid;
                file_storage = req.file_storage;
                file_detail = detail;
              })
              site'
      ]

  -- One goroutine: to dispatch a request that is nil is a panic.
  unfoldable pub free_file :
      Caller → Job → File → SiteOf x tx NodeDb → Outcome (SiteOf x tx NodeDb × List Removal)
  unfolding dispatch_removal
  free_file c j f site =
      if f.size == 0
      then returns (site, [])
      else and_then (get_file_detail x flags site.jobs.db f) (λ detail.
        and_then (build_task_download_req x flags c (whole_file f.fid) j.pid "" site.jobs.db) (λ r.
          elim r [ none ↦ panics | some req ↦ returns (dispatch_removal j f detail req site) ]))

  unfoldable pub free_files :
      Caller → Job → List File → SiteOf x tx NodeDb → Outcome (SiteOf x tx NodeDb × List Removal)
  unfolding free_file
  free_files c j [] site = returns (site, [])
  free_files c j (f ∷ fs) site =
      and_then (free_file c j f site)
        (λ q. and_then (free_files c j fs q.0) (λ r. returns (r.0, q.1 ++ r.1)))

  -- The row of the job tells that its files are removed.
  abbrev pub mark_removed : Job → SiteOf x tx NodeDb → SiteOf x tx NodeDb
  mark_removed j site = record site {
    jobs = record (site.jobs) { db = soft_delete site.jobs.db j 2 };
  }

  -- `freePkgSpace` of a job whose package has been read.
  unfoldable pub free_pkg_space :
      Caller → Job → SiteOf x tx NodeDb → Outcome (SiteOf x tx NodeDb × List Removal)
  unfolding free_files
  free_pkg_space c j site =
      and_then (free_files c j (files_of (get_files x site.jobs.db j.pid)) site)
        (λ q. returns (mark_removed j q.0, q.1))

  -- The goroutine of `PkgsController.Delete`: the files of a package that is nil are a panic.
  unfoldable pub free_pkg_spaces :
      Caller → List Job → SiteOf x tx NodeDb → Outcome (SiteOf x tx NodeDb × List Removal)
  unfolding free_pkg_space
  free_pkg_spaces c [] site = returns (site, [])
  free_pkg_spaces c (j ∷ js) site = elim (or_missing (get_pkg base site.jobs.db j.pid)) [
    | none ↦ panics
    | some p ↦
        and_then (free_pkg_space c j site)
          (λ q. and_then (free_pkg_spaces c js q.0) (λ r. returns (r.0, q.1 ++ r.1)))
  ]

-- ===== src/Api/Transfers/Requests.antt =====
-- api/controllers/transfer.go: `Post` of the transfer controller, and who gets a task by it.
use codemigrate.Prelude.{
  String, ◌≡◌, ◌⊎◌, Option, none, some, true, ◌==◌, nat_eq, string_eq, if◌then◌else◌,
}
use codemigrate.Cydex.{upload, download}
use codemigrate.Errors.{Result}
use codemigrate.Models.{File, Job, JobDetail}
use codemigrate.Models.Engine.{or_missing}
use codemigrate.Nodes.{Outcome, returns, panics, deadlocks}
use codemigrate.Nodes.Managed.{Lands}
use codemigrate.Schedulers.Default.{Url}
use codemigrate.Unpacker.{get_pid_from_fid}
use codemigrate.Jobs.{hash_job}
use codemigrate.Jobs.Cache.{get_job, get_job_detail}
use codemigrate.Tasks.{TaskEngine}
use codemigrate.Api.{not_allowed, invalid_param, ApiEngine, FileFlags, SiteOf}
use codemigrate.Api.Transfers.{TransferReq, TransferRsp, refusal, Caller, can_upload, can_download}
use codemigrate.Api.Transfers.Uploads.{process_upload}
use codemigrate.Api.Transfers.Downloads.{process_download}

pub every_ending : {A : Type 0} {P : A → Type 0} (r : Outcome A) → ((a : A) → P a) → Lands P r
every_ending (returns a) h = h a
every_ending panics h = tt
every_ending deadlocks h = tt

module _ (x : ApiEngine) (flags : FileFlags) (tx : TaskEngine) {NodeDb : Type 0}
    (parse : String → Result Url) where
  open x use {base}

  -- `Post`: a body that cannot be decoded is `none`.
  unfoldable pub post :
      Caller → Option TransferReq → SiteOf x tx NodeDb → Outcome (SiteOf x tx NodeDb × TransferRsp)
  post c none site = returns (site, refusal invalid_param)
  post c (some req) site =
      if req.fid == ""
      then returns (site, refusal invalid_param)
      else if req.from == "receiver"
      then (if can_download c.level
          then process_download x flags tx parse c req site
          else returns (site, refusal not_allowed))
      else if req.from == "sender"
      then (if can_upload c.level
          then process_upload x flags tx parse c req site
          else returns (site, refusal not_allowed))
      else returns (site, refusal invalid_param)

  -- The user may upload, and has the job of uploading the file's package.
  pub record Uploads (c : Caller) (req : TransferReq) (site : SiteOf x tx NodeDb) : Type 0 where
    pub level : can_upload c.level ≡ true
    pub file : File
    pub found : or_missing (base.find_file site.jobs.db req.fid) ≡ some file
    pub job : Job
    pub has_job : (get_job base (hash_job c.uid file.pid upload) site.jobs).1 ≡ some job

  -- The user may download, and has the job of downloading the package with a detail for the file.
  pub record Downloads (c : Caller) (req : TransferReq) (site : SiteOf x tx NodeDb) : Type 0 where
    pub level : can_download c.level ≡ true
    pub detail : JobDetail
    pub has_detail :
        (get_job_detail base
          (hash_job c.uid (get_pid_from_fid req.fid) download)
          req.fid
          site.jobs).1
        ≡ some detail

  -- Tasks, nodes and schedulers are as they were, or the request is one of those that may get a task.
  abbrev pub Permits :
      Caller → TransferReq → SiteOf x tx NodeDb → SiteOf x tx NodeDb × TransferRsp → Type 0
  Permits c req site q =
      (q.0.system ≡ site.system)
      ⊎ ((req.from ≡ "sender") × Uploads c req site)
      ⊎ ((req.from ≡ "receiver") × Downloads c req site)

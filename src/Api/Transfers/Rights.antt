-- ===== src/Api/Transfers/Rights.antt =====
-- api/controllers/transfer.go: who gets a task.
use codemigrate.Prelude.{
  String, ◌≡◌, refl, inl, inr, some, true, ◌==◌, ==_iff, nat_eq, string_eq, length, by_if,
  by_option,
}
use codemigrate.Cydex.{upload, download}
use codemigrate.Errors.{Result}
use codemigrate.Models.{File, Pkg, Job, JobDetail}
use codemigrate.Models.Engine.{or_missing, get_pkg}
use codemigrate.Nodes.{Outcome}
use codemigrate.Nodes.Managed.{Lands}
use codemigrate.Schedulers.Default.{Url}
use codemigrate.Unpacker.{get_pid_from_fid}
use codemigrate.Jobs.{hash_job}
use codemigrate.Jobs.Cache.{get_job, get_job_detail}
use codemigrate.Tasks.{TaskEngine}
use codemigrate.Api.{ApiEngine, FileFlags, SiteOf}
use codemigrate.Api.Transfers.{TransferReq, TransferRsp, Caller, can_upload, can_download}
use codemigrate.Api.Transfers.Uploads.{admit_upload, find_upload, process_upload}
use codemigrate.Api.Transfers.Downloads.{prepare_download, process_download}
use codemigrate.Api.Transfers.Requests.{every_ending, post, Permits}

module _ (x : ApiEngine) (flags : FileFlags) (tx : TaskEngine) {NodeDb : Type 0}
    (parse : String → Result Url) where
  open x use {base}

  find_upload-Lands :
      (c : Caller) (req : TransferReq) (f : File) (p : Pkg) (site : SiteOf x tx NodeDb)
      → can_upload c.level ≡ true
      → req.from ≡ "sender"
      → or_missing (base.find_file site.jobs.db req.fid) ≡ some f
      → Lands (Permits x flags tx parse c req site) (find_upload x flags tx parse c req f p site)
  unfolding find_upload
  find_upload-Lands c req f p site may sender found =
      let P : Outcome (SiteOf x tx NodeDb × TransferRsp) → Type 0 =
        λ r. Lands (Permits x flags tx parse c req site) r in
      let jobid = hash_job c.uid f.pid upload in
      let jm = (get_job base jobid site.jobs).0 in
      by_option {A = Job} P (get_job base jobid site.jobs).1 (inl refl) (λ j has.
        by_option {A = JobDetail} P (get_job_detail base jobid req.fid jm).1 (inl refl) (λ jd _.
          every_ending (admit_upload x flags tx parse c req f p jd _) (λ q. inr (
            inl
              (sender, record { level = may; file = f; found = found; job = j; has_job = has })))))

  process_upload-Lands :
      (c : Caller) (req : TransferReq) (site : SiteOf x tx NodeDb)
      → can_upload c.level ≡ true
      → req.from ≡ "sender"
      → Lands (Permits x flags tx parse c req site) (process_upload x flags tx parse c req site)
  unfolding process_upload
  process_upload-Lands c req site may sender =
      let P : Outcome (SiteOf x tx NodeDb × TransferRsp) → Type 0 =
        λ r. Lands (Permits x flags tx parse c req site) r in
      by_if P (length req.seg_ids == 0) (λ _. inl refl)
        (λ _.
          by_option {A = File} P (or_missing (base.find_file site.jobs.db req.fid)) (inl refl)
            (λ f found.
              by_option {A = Pkg} P (or_missing (get_pkg base site.jobs.db f.pid)) (inl refl)
                (λ p _. find_upload-Lands c req f p site may sender found)))

  process_download-Lands :
      (c : Caller) (req : TransferReq) (site : SiteOf x tx NodeDb)
      → can_download c.level ≡ true
      → req.from ≡ "receiver"
      → Lands (Permits x flags tx parse c req site) (process_download x flags tx parse c req site)
  unfolding process_download
  process_download-Lands c req site may receiver =
      let P : Outcome (SiteOf x tx NodeDb × TransferRsp) → Type 0 =
        λ r. Lands (Permits x flags tx parse c req site) r in
      let pid = get_pid_from_fid req.fid in
      let jobid = hash_job c.uid pid download in
      by_if P (length req.seg_ids == 0) (λ _. inl refl)
        (λ _.
          by_option {A = JobDetail} P (get_job_detail base jobid req.fid site.jobs).1 (inl refl)
            (λ jd has.
              every_ending (prepare_download x flags tx parse c req pid jobid _)
                (λ q. inr (inr (receiver, record { level = may; detail = jd; has_detail = has })))))

  -- A request that does not die leaves tasks, nodes and schedulers as they were, or it comes from a user who
  -- may upload and has the job of uploading the file's package, or who may download and has the job of
  -- downloading the package with a detail for the file.
  pub post-Permits :
      (c : Caller) (req : TransferReq) (site : SiteOf x tx NodeDb)
      → Lands (Permits x flags tx parse c req site) (post x flags tx parse c (some req) site)
  unfolding post
  post-Permits c req site =
      let P : Outcome (SiteOf x tx NodeDb × TransferRsp) → Type 0 =
        λ r. Lands (Permits x flags tx parse c req site) r in
      by_if P (req.fid == "") (λ _. inl refl)
        (λ _.
          by_if P (req.from == "receiver")
            (λ receiver.
              by_if P (can_download c.level)
                (λ may.
                  process_download-Lands c req site may ((==_iff req.from "receiver").0 receiver))
                (λ _. inl refl))
            (λ _.
              by_if P (req.from == "sender")
                (λ sender.
                  by_if P (can_upload c.level)
                    (λ may.
                      process_upload-Lands c req site may ((==_iff req.from "sender").0 sender))
                    (λ _. inl refl))
                (λ _. inl refl)))

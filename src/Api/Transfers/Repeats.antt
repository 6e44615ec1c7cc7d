-- ===== src/Api/Transfers/Repeats.antt =====
-- api/controllers/transfer.go: requests for the upload of a file that is being uploaded.
use codemigrate.Prelude.{
  ℕ, zero, suc, ◌+◌, String, ◌≡◌, ◌≢◌, refl, subst, sym, ap, ◌∙◌, Option, some, true, false, ◌&&◌,
  ◌==◌, nat_eq, string_eq, ltb, length, arith, by_if,
}
use codemigrate.Prelude.GoMap.{get, put, get-put_self}
use codemigrate.Cydex.{upload, doing, state_eq}
use codemigrate.Errors.{Result, ok, err, by_result}
use codemigrate.Models.{File, Pkg, Job, JobDetail}
use codemigrate.Models.Engine.{or_missing, get_pkg}
use codemigrate.Nodes.{Outcome, returns, panics, deadlocks, and_then}
use codemigrate.Nodes.Managed.{Lands}
use codemigrate.Schedulers.Default.{Url}
use codemigrate.Jobs.{JobManager, hash_job}
use codemigrate.Jobs.Cache.{get_job, get_job_detail, load_detail}
use codemigrate.Jobs.Handlers.{store_detail}
use codemigrate.Tasks.{TaskEngine}
use codemigrate.Tasks.Dispatch.{dispatch_upload}
use codemigrate.Api.{Code, create_transfer_again, ApiEngine, FileFlags, SiteOf}
use codemigrate.Api.Transfers.{
  TransferReq, TransferRsp, refusal, Caller, get_file_detail, lacks_detail, announce, to_answer,
}
use codemigrate.Api.Transfers.Uploads.{
  upload_req, end_upload, send_upload, prepare_upload, admit_upload, find_upload, process_upload,
  save_storage, upload_rsp,
}

Lands-and_then :
    {A B : Type 0} (P : B → Type 0) (r : Outcome A) (k : A → Outcome B)
    → ((a : A) → Lands P (k a))
    → Lands P (and_then r k)
Lands-and_then P (returns a) k h = h a
Lands-and_then P panics k h = tt
Lands-and_then P deadlocks k h = tt

abbrev more : JobDetail → JobDetail
more jd = record jd { err307_times = jd.err307_times + 1 }

module _ (x : ApiEngine) where
  open x use {base}

  -- A job and a detail that are cached are found without the database.
  get_job_cached :
      (jobid : String) (j : Job) (jm : JobManager base.Db)
      → get jm.jobs jobid ≡ some j
      → get_job base jobid jm ≡ (jm, some j)
  unfolding get_job
  get_job_cached jobid j jm e = rw (e, get_job) refl

  get_job_detail_cached :
      (jobid fid : String) (j : Job) (jd : JobDetail) (jm : JobManager base.Db)
      → get jm.jobs jobid ≡ some j
      → get j.details fid ≡ some (some jd)
      → get_job_detail base jobid fid jm ≡ (jm, some jd)
  unfolding get_job_detail load_detail
  get_job_detail_cached jobid fid j jd jm e f =
      rw (get_job_cached jobid j jm e, get_job_detail)
        (rw (f, load_detail) (rw (get_job_cached jobid j jm e) refl))

module _ (x : ApiEngine) (flags : FileFlags) (tx : TaskEngine) {NodeDb : Type 0}
    (parse : String → Result Url) where
  open x use {base}

  -- The detail of the request's file is cached and being transferred.
  pub record IsBusy (c : Caller) (req : TransferReq) (f : File) (p : Pkg) (jd : JobDetail)
      (site : SiteOf x tx NodeDb) : Type 0 where
    pub named : (length req.seg_ids == 0) ≡ false
    pub file_found : or_missing (base.find_file site.jobs.db req.fid) ≡ some f
    pub pkg_found : or_missing (get_pkg base site.jobs.db f.pid) ≡ some p
    pub job : Job
    pub job_cached : get site.jobs.jobs (hash_job c.uid f.pid upload) ≡ some job
    pub detail_cached : get job.details req.fid ≡ some (some jd)
    pub busy : jd.state ≡ doing

  busy-admit_upload :
      (c : Caller) (req : TransferReq) (f : File) (p : Pkg) (jd : JobDetail)
      (site : SiteOf x tx NodeDb)
      → IsBusy c req f p jd site
      → process_upload x flags tx parse c req site ≡ admit_upload x flags tx parse c req f p jd site
  unfolding process_upload find_upload
  busy-admit_upload c req f p jd site b =
      let jobid = hash_job c.uid f.pid upload in
      let job : get_job base jobid site.jobs ≡ (site.jobs, some b.job) =
        get_job_cached x jobid b.job site.jobs b.job_cached in
      let detail : get_job_detail base jobid req.fid (get_job base jobid site.jobs).0
          ≡ (site.jobs, some jd) =
        ap (λ (q : JobManager base.Db × Option Job). get_job_detail base jobid req.fid q.0) job
        ∙ get_job_detail_cached x jobid req.fid b.job jd site.jobs b.job_cached b.detail_cached in
      rw b.named (
        rw (b.file_found, process_upload)
          (rw (b.pkg_found, process_upload)
            (rw (job, find_upload) (rw (detail, find_upload) (rw detail refl)))))

  -- One more request for a busy detail is noted in the cache.
  counted-IsBusy :
      (c : Caller) (req : TransferReq) (f : File) (p : Pkg) (jd : JobDetail)
      (site : SiteOf x tx NodeDb)
      → IsBusy c req f p jd site
      → IsBusy c req f p (more jd) (record site {
        jobs = store_detail base (hash_job c.uid f.pid upload) req.fid (more jd) site.jobs;
      })
  unfolding store_detail put
  counted-IsBusy c req f p jd site b =
      let jobid = hash_job c.uid f.pid upload in
      let j : Job = record (b.job) { details = put b.job.details req.fid (some (more jd)) } in
      let kept : JobManager base.Db = record (site.jobs) { jobs = put site.jobs.jobs jobid j } in
      let stored : store_detail base jobid req.fid (more jd) site.jobs ≡ kept =
        rw (b.job_cached, store_detail) refl in
      rw stored (record {
        named = b.named;
        file_found = b.file_found;
        pkg_found = b.pkg_found;
        job = j;
        job_cached = get-put_self site.jobs.jobs jobid j;
        detail_cached = get-put_self b.job.details req.fid (some (more jd));
        busy = b.busy;
      })

  -- Requests in a row that are refused because the file is being uploaded; tasks and nodes stay as they are.
  pub data Refusals (c : Caller) (req : TransferReq)
      : ℕ → SiteOf x tx NodeDb → SiteOf x tx NodeDb → Type 0 where
    over : (s : SiteOf x tx NodeDb) → Refusals c req zero s s
    again :
        (k : ℕ) (s t u : SiteOf x tx NodeDb)
        → process_upload x flags tx parse c req s ≡ returns (t, refusal create_transfer_again)
        → t.system ≡ s.system
        → Refusals c req k t u
        → Refusals c req (suc k) s u

  -- The response does not say that the file is being uploaded.
  abbrev pub LetsThrough : Outcome (SiteOf x tx NodeDb × TransferRsp) → Type 0
  LetsThrough r = Lands (λ q. q.1.error ≢ create_transfer_again) r

  end_upload-LetsThrough :
      (c : Caller) (f : File) (code : Code) (site : SiteOf x tx NodeDb) (r : Result ℕ)
      → code ≢ create_transfer_again
      → LetsThrough (end_upload x flags tx parse c f code site r)
  unfolding end_upload save_storage upload_rsp
  end_upload-LetsThrough c f code site (err e) h = λ k. cc
  end_upload-LetsThrough c f code site (ok u) h =
      by_result LetsThrough (c.reply u) (λ e _. λ k. cc)
        (λ r _.
          Lands-and_then (λ q. q.1.error ≢ create_transfer_again) (announce x c.now c.task_id site)
            _ (λ site'. h))

  prepare_upload-LetsThrough :
      (c : Caller) (req : TransferReq) (f : File) (p : Pkg) (site : SiteOf x tx NodeDb)
      → LetsThrough (prepare_upload x flags tx parse c req f p site)
  unfolding prepare_upload send_upload
  prepare_upload-LetsThrough c req f p site =
      let Q : SiteOf x tx NodeDb × TransferRsp → Type 0 = λ q. q.1.error ≢ create_transfer_again in
      Lands-and_then Q (get_file_detail x flags site.jobs.db f) _ (λ d.
        Lands-and_then Q
          (dispatch_upload tx parse c.now
            (upload_req x c req f p (hash_job c.uid f.pid upload) site.jobs.db)
            (λ u. to_answer (c.reply u)) site.system)
          _
          (λ q.
            end_upload-LetsThrough c f _ (record site { system = q.0 }) q.1
              (by_if (λ code. code ≢ create_transfer_again) (lacks_detail x flags f d) (λ _ k. cc)
                (λ _ k. cc))))

  -- While a detail is being transferred, a client that asks again for its upload is refused until it has been
  -- refused five times since the last success, and tasks and nodes stay as they are; the request after
  -- that is let through.
  pub process_upload-Refusals :
      (k : ℕ) (c : Caller) (req : TransferReq) (f : File) (p : Pkg) (jd : JobDetail)
      (site : SiteOf x tx NodeDb)
      → IsBusy c req f p jd site
      → jd.err307_times + k ≡ 5
      → (site' : SiteOf x tx NodeDb) × Refusals c req k site site'
        × LetsThrough (process_upload x flags tx parse c req site')
  unfolding admit_upload
  process_upload-Refusals zero c req f p jd site b e = (
    site,
    over site,
    subst LetsThrough (sym (busy-admit_upload c req f p jd site b)) (
        by_if LetsThrough (state_eq jd.state doing && ltb jd.err307_times 5)
          (λ t. absurd (ground (arith, t, e))) (λ _. prepare_upload-LetsThrough c req f p _)),
  )
  process_upload-Refusals (suc k) c req f p jd site b e =
      let jobid = hash_job c.uid f.pid upload in
      let site1 : SiteOf x tx NodeDb = record site {
        jobs = store_detail base jobid req.fid (more jd) site.jobs;
      } in
      let (site', rest, through) =
        process_upload-Refusals k c req f p (more jd) site1 (counted-IsBusy c req f p jd site b)
          (omega (arith, e)) in
      let counts : (state_eq jd.state doing && ltb jd.err307_times 5) ≡ true =
        ground (arith, b.busy, e) in
      let refused = busy-admit_upload c req f p jd site b ∙ rw (counts, admit_upload) refl in
      (site', again k site site1 site' refused refl rest, through)

-- ===== src/Api/Transfers/Uploads.antt =====
-- api/controllers/transfer.go: a client asks for the upload of segments.
use codemigrate.Prelude.{
  ℕ, ◌-◌, ◌+◌, ◌%◌, ◌^◌, String, List, [], ◌∷◌, none, some, ◌==◌, nat_eq, string_eq, ltb, ◌&&◌,
  length, if◌then◌else◌,
}
use codemigrate.Cydex.{state_eq, done, doing, upload}
use codemigrate.Errors.{Result, ok, err}
use codemigrate.Models.{File, SegRow, Pkg, JobDetail}
use codemigrate.Models.Engine.{or_missing, or_nil, get_pkg}
use codemigrate.Nodes.{Outcome, returns, and_then}
use codemigrate.Schedulers.{UploadReq, no_restrict}
use codemigrate.Schedulers.Default.{Url}
use codemigrate.Jobs.{hash_job}
use codemigrate.Jobs.Cache.{get_job, get_job_detail}
use codemigrate.Jobs.Handlers.{store_detail}
use codemigrate.Tasks.{TaskEngine}
use codemigrate.Tasks.Dispatch.{dispatch_upload}
use codemigrate.Api.{
  Code, fine, invalid_param, inner_server, create_transfer_again, ApiEngine, FileFlags, SiteOf,
}
use codemigrate.Api.Transfers.{
  TransferReq, TransferRsp, refusal, TaskReply, to_answer, Caller, get_host, limited,
  get_file_detail, lacks_detail, found_segs, announce,
}

-- `GetTransferedSize`: what of a job is done, 0 if the details cannot be read.
unfoldable pub done_size : List JobDetail → ℕ → ℕ
done_size [] total = total
done_size (jd ∷ jds) total =
    done_size jds (if state_eq jd.state done then (total + jd.finished_size) % 2 ^ 64 else total)

unfoldable pub segs_size : List SegRow → ℕ → ℕ
segs_size [] total = total
segs_size (s ∷ segs) total = segs_size segs ((total + s.size) % 2 ^ 64)

module _ (x : ApiEngine) where
  open x use {base}

  -- The request to the task manager. The size that is left of the package is a `uint64` difference.
  unfoldable pub upload_req : Caller → TransferReq → File → Pkg → String → base.Db → UploadReq
  unfolding done_size segs_size
  upload_req c req f p jobid db = record {
    task_id = c.task_id;
    pid = f.pid;
    fid = req.fid;
    file_storage = f.storage;
    size = segs_size (found_segs x db req.seg_ids) 0;
    left_pkg_size =
        (p.size + 2 ^ 64 - done_size (or_nil (base.find_job_details db jobid)) 0) % 2 ^ 64;
    file_size = f.size;
    restrict_mode = no_restrict;
    job_id = jobid;
    sid_list = req.seg_ids;
    ip = c.ip;
  }

module _ (x : ApiEngine) (flags : FileFlags) (tx : TaskEngine) {NodeDb : Type 0}
    (parse : String → Result Url) where
  open x use {base, set_storage}

  -- A file without a storage gets the one that the node names.
  unfoldable pub save_storage : File → TaskReply → SiteOf x tx NodeDb → SiteOf x tx NodeDb
  save_storage f r site =
      if f.storage == ""
      then record site {
        jobs = record (site.jobs) { db = set_storage site.jobs.db f r.file_storage };
      }
      else site

  -- The response names the node, under the bitrate of the account. Its code is what it was before.
  unfoldable pub upload_rsp : Caller → Code → ℕ → TaskReply → SiteOf x tx NodeDb → TransferRsp
  upload_rsp c code u r site = record {
    error = code;
    host = get_host (c.address u);
    port = r.port;
    recomend_bitrate = limited c.max_upload r.recomend_bitrate;
    segs = found_segs x site.jobs.db r.sid_list;
  }

  -- After the dispatch; a node that took the task has replied.
  unfoldable pub end_upload :
      Caller
      → File
      → Code
      → SiteOf x tx NodeDb
      → Result ℕ
      → Outcome (SiteOf x tx NodeDb × TransferRsp)
  unfolding save_storage upload_rsp
  end_upload c f code site (err e) = returns (site, refusal inner_server)
  end_upload c f code site (ok u) = elim (c.reply u) [
    | err e ↦ returns (site, refusal inner_server)
    | ok r ↦ and_then (announce x c.now c.task_id site) (λ site'.
        let saved = save_storage f r site' in returns (saved, upload_rsp c code u r saved))
  ]

  unfoldable pub send_upload :
      Caller
      → TransferReq
      → File
      → Pkg
      → Code
      → SiteOf x tx NodeDb
      → Outcome (SiteOf x tx NodeDb × TransferRsp)
  unfolding upload_req end_upload
  send_upload c req f p code site =
      and_then
        (dispatch_upload tx parse c.now
          (upload_req x c req f p (hash_job c.uid f.pid upload) site.jobs.db)
          (λ u. to_answer (c.reply u)) site.system)
        (λ q. end_upload c f code (record site { system = q.0 }) q.1)

  -- A file that must have a detail and has none sets the code of the response, and the upload goes on.
  unfoldable pub prepare_upload :
      Caller
      → TransferReq
      → File
      → Pkg
      → SiteOf x tx NodeDb
      → Outcome (SiteOf x tx NodeDb × TransferRsp)
  unfolding send_upload
  prepare_upload c req f p site =
      and_then (get_file_detail x flags site.jobs.db f)
        (λ d. send_upload c req f p (if lacks_detail x flags f d then inner_server else fine) site)

  -- `MAX_ERR307_TIMES` requests for a detail that is being transferred are refused.
  unfoldable pub admit_upload :
      Caller
      → TransferReq
      → File
      → Pkg
      → JobDetail
      → SiteOf x tx NodeDb
      → Outcome (SiteOf x tx NodeDb × TransferRsp)
  unfolding prepare_upload
  admit_upload c req f p jd site =
      let jobid = hash_job c.uid f.pid upload in
      let counted =
        store_detail base jobid req.fid (record jd { err307_times = jd.err307_times + 1 })
          site.jobs in
      let cleared = store_detail base jobid req.fid (record jd { err307_times = 0 }) site.jobs in
      if state_eq jd.state doing && ltb jd.err307_times 5
      then returns (record site { jobs = counted }, refusal create_transfer_again)
      else prepare_upload c req f p (record site { jobs = cleared })

  unfoldable pub find_upload :
      Caller
      → TransferReq
      → File
      → Pkg
      → SiteOf x tx NodeDb
      → Outcome (SiteOf x tx NodeDb × TransferRsp)
  unfolding admit_upload
  find_upload c req f p site =
      let jobid = hash_job c.uid f.pid upload in
      let (jm1, job) = get_job base jobid site.jobs in
      let (jm2, detail) = get_job_detail base jobid req.fid jm1 in
      elim job [
        | none ↦ returns (record site { jobs = jm1 }, refusal inner_server)
        | some j ↦ elim detail [
          | none ↦ returns (record site { jobs = jm2 }, refusal inner_server)
          | some jd ↦ admit_upload c req f p jd (record site { jobs = jm2 })
        ]
      ]

  -- `processUpload`.
  unfoldable pub process_upload :
      Caller → TransferReq → SiteOf x tx NodeDb → Outcome (SiteOf x tx NodeDb × TransferRsp)
  unfolding find_upload
  process_upload c req site =
      if length req.seg_ids == 0
      then returns (site, refusal invalid_param)
      else elim (or_missing (base.find_file site.jobs.db req.fid)) [
        | none ↦ returns (site, refusal inner_server)
        | some f ↦ elim (or_missing (get_pkg base site.jobs.db f.pid)) [
          | none ↦ returns (site, refusal inner_server)
          | some p ↦ find_upload c req f p site
        ]
      ]

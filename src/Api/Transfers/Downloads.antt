-- ===== src/Api/Transfers/Downloads.antt =====
-- api/controllers/transfer.go: a client asks for the download of segments, or says that it has the file.
use codemigrate.Prelude.{
  ℕ, String, [], ◌∷◌, Option, none, some, ◌==◌, nat_eq, string_eq, length, if◌then◌else◌,
}
use codemigrate.Prelude.Int.{decrement}
use codemigrate.Cydex.{done, upload, download}
use codemigrate.Errors.{Result, ok, err}
use codemigrate.Models.{File, Job, JobDetail}
use codemigrate.Models.Engine.{or_missing, or_nil}
use codemigrate.Nodes.{Outcome, returns, panics, and_then}
use codemigrate.Schedulers.Default.{Url}
use codemigrate.Unpacker.{get_pid_from_fid}
use codemigrate.Jobs.{JobManager, hash_job, store_job}
use codemigrate.Jobs.Cache.{get_job, get_job_detail}
use codemigrate.Jobs.Lifecycle.{process_job}
use codemigrate.Jobs.Handlers.{store_detail, save_detail, current}
use codemigrate.Tasks.{TaskEngine}
use codemigrate.Tasks.Downloads.{DownloadReq, dispatch_download}
use codemigrate.Api.{fine, inner_server, ApiEngine, FileFlags, SiteOf}
use codemigrate.Api.Transfers.{
  TransferReq, TransferRsp, new_transfer_rsp, refusal, TaskReply, to_answer, Caller, get_host,
  limited, get_file_detail, lacks_detail, found_segs, announce,
}

-- The file of a detail is read again, if the query succeeds.
abbrev reread_file : Result (Option File) → JobDetail → JobDetail
reread_file (err e) jd = jd
reread_file (ok f) jd = record jd { file = f }

abbrev all_done : JobDetail → JobDetail
all_done jd = elim jd.file [
  | none ↦ jd
  | some f ↦ record jd { finished_size = f.size; num_finished_segs = f.num_segs }
]

-- The bitrate that is asked for: the account's if the client names none, and never above it.
unfoldable pub download_bitrate : ℕ → ℕ → ℕ
download_bitrate max_bps b = limited max_bps (if b == 0 then max_bps else b)

module _ (x : ApiEngine) where
  open x use {base}

  unfoldable pub finish_at_once : ℕ → Result (Option File) → JobDetail → JobDetail
  finish_at_once now found jd = record (all_done (reread_file found jd)) {
    start_time = now;
    finish_time = now;
    state = done;
  }

  -- A client that names no segments has the file already.
  unfoldable pub skip_detail :
      ℕ → String → String → Option JobDetail → JobManager base.Db → JobManager base.Db
  unfolding finish_at_once
  skip_detail now jobid fid none jm = jm
  skip_detail now jobid fid (some jd) jm =
      let jd' = finish_at_once now (base.find_file jm.db jd.fid) jd in
      save_detail base jd' (store_detail base jobid fid jd' jm)

  unfoldable pub skip_count : String → Option Job → JobManager base.Db → JobManager base.Db
  skip_count jobid none jm = jm
  skip_count jobid (some j) jm =
      let k = current base jobid j jm in
      if k.is_cached
      then store_job jobid
          (record k { num_unfinished_details = decrement k.num_unfinished_details }) jm
      else jm

  unfoldable pub skip_download : ℕ → String → String → JobManager base.Db → JobManager base.Db
  unfolding skip_detail skip_count
  skip_download now jobid fid jm =
      let (jm1, job) = get_job base jobid jm in
      let (jm2, detail) = get_job_detail base jobid fid jm1 in
      process_job base jobid (skip_count jobid job (skip_detail now jobid fid detail jm2))

  -- `UpdateJobDetailProcess` of job.go.
  unfoldable pub update_job_detail_process :
      String → String → ℕ → ℕ → JobManager base.Db → JobManager base.Db
  update_job_detail_process jobid fid size n jm =
      let (jm', detail) = get_job_detail base jobid fid jm in
      elim detail [
        | none ↦ jm'
        | some jd ↦
            let jd' = record jd { finished_size = size; num_finished_segs = n } in
            save_detail base jd' (store_detail base jobid fid jd' jm')
      ]

module _ (x : ApiEngine) (flags : FileFlags) where
  open x use {base}

  -- `buildTaskDownloadReq`: the flag of a file that cannot be read is looked at, a panic.
  unfoldable pub build_task_download_req :
      Caller → TransferReq → String → String → base.Db → Outcome (Option DownloadReq)
  build_task_download_req c req pid jobid db = elim (or_missing (base.find_file db req.fid)) [
    | none ↦ panics
    | some f ↦ and_then (get_file_detail x flags db f) (λ d.
        if lacks_detail x flags f d
        then returns none
        else returns (
            some (record {
              task_id = c.task_id;
              pid = pid;
              fid = req.fid;
              file_storage = f.storage;
              job_id = jobid;
              sid_list = req.seg_ids;
              ip = c.ip;
              max_bitrate = download_bitrate c.max_download req.max_bitrate;
            })))
  ]

module _ (x : ApiEngine) (flags : FileFlags) (tx : TaskEngine) {NodeDb : Type 0}
    (parse : String → Result Url) where
  open x use {base}

  unfoldable pub download_rsp : Caller → ℕ → TaskReply → SiteOf x tx NodeDb → TransferRsp
  download_rsp c u r site = record {
    error = fine;
    host = get_host (c.address u);
    port = r.port;
    recomend_bitrate = limited c.max_download r.recomend_bitrate;
    segs = found_segs x site.jobs.db r.sid_list;
  }

  -- After the dispatch; a node that took the task has replied.
  unfoldable pub end_download :
      Caller → SiteOf x tx NodeDb → Result ℕ → Outcome (SiteOf x tx NodeDb × TransferRsp)
  unfolding download_rsp
  end_download c site (err e) = returns (site, refusal inner_server)
  end_download c site (ok u) = elim (c.reply u) [
    | err e ↦ returns (site, refusal inner_server)
    | ok r ↦
        and_then (announce x c.now c.task_id site)
          (λ site'. returns (site', download_rsp c u r site'))
  ]

  unfoldable pub send_download :
      Caller → Option DownloadReq → SiteOf x tx NodeDb → Outcome (SiteOf x tx NodeDb × TransferRsp)
  unfolding end_download
  send_download c none site = returns (site, refusal inner_server)
  send_download c (some r) site =
      and_then (dispatch_download tx parse c.now r (λ u. to_answer (c.reply u)) site.system)
        (λ q. end_download c (record site { system = q.0 }) q.1)

  -- The package must have an owner: an upload job.
  unfoldable pub prepare_download :
      Caller
      → TransferReq
      → String
      → String
      → SiteOf x tx NodeDb
      → Outcome (SiteOf x tx NodeDb × TransferRsp)
  unfolding send_download
  prepare_download c req pid jobid site =
      elim (or_nil (base.find_jobs_by_pid site.jobs.db pid upload)) [
        | [] ↦ returns (site, refusal inner_server)
        | owner ∷ others ↦
            and_then (build_task_download_req x flags c req pid jobid site.jobs.db)
              (λ r. send_download c r site)
      ]

  -- `processDownload`.
  unfoldable pub process_download :
      Caller → TransferReq → SiteOf x tx NodeDb → Outcome (SiteOf x tx NodeDb × TransferRsp)
  unfolding prepare_download update_job_detail_process
  process_download c req site =
      let pid = get_pid_from_fid req.fid in
      let jobid = hash_job c.uid pid download in
      let (jm, detail) = get_job_detail base jobid req.fid site.jobs in
      if length req.seg_ids == 0
      then returns
          (record site { jobs = skip_download x c.now jobid req.fid site.jobs }, new_transfer_rsp)
      else elim detail [
        | none ↦ returns (record site { jobs = jm }, refusal inner_server)
        | some jd ↦ prepare_download c req pid jobid (record site {
          jobs =
              update_job_detail_process x jobid req.fid req.finished_size req.num_finished_segs jm;
        })
      ]

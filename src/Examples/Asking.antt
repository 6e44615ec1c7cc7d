-- ===== src/Examples/Asking.antt =====
-- Clients that ask for the transfer of segments.
use codemigrate.Prelude.{
  ℕ, String, [], ◌∷◌, ◌≡◌, refl, Option, none, some, true, false, arith, ◌+◌, ◌==◌, nat_eq,
  string_eq,
}
use codemigrate.Prelude.Int.{pos}
use codemigrate.Cydex.{upload, doing}
use codemigrate.Errors.{ok}
use codemigrate.Models.{File, Pkg, Job, JobDetail, new_job}
use codemigrate.Models.Engine.{Engine}
use codemigrate.Nodes.Managed.{Lands}
use codemigrate.Jobs.{JobManager, new_job_manager}
use codemigrate.Examples.Managing
use codemigrate.Examples.Managing.{empty_pkg}
use codemigrate.Examples.Tasking
use codemigrate.Examples.Tasking.{system}
use codemigrate.Examples.Scheduling.{parse}
use codemigrate.Api.{common, ApiEngine, FileFlags, SiteOf}
use codemigrate.Api.Transfers.{TransferReq, Caller}
use codemigrate.Api.Transfers.Requests.{post, Permits}
use codemigrate.Api.Transfers.Uploads.{process_upload}
use codemigrate.Api.Transfers.Rights.{post-Permits}
use codemigrate.Api.Transfers.Repeats.{IsBusy, Refusals, LetsThrough, process_upload-Refusals}

abbrev pub file : File
file = record {
  fid = "f";
  pid = "p";
  name = "notes";
  size = 8;
  mode = 420;
  num_segs = 1;
  storage = "";
  flag = 0;
}

-- The database also holds a file of the package, with one segment.
abbrev pub api : ApiEngine
api = record {
  base = record (Managing.engine) { find_file = λ db fid. ok (some file) };
  find_segs = λ db fid. ok (record { sid = "f1"; state = doing; size = 8 } ∷ []);
  find_jobs_of = λ db t page. ok ([], 0);
  find_jobs_by_uid = λ db uid t page. ok ([], 0);
  find_jobs_ex = λ db t page filter. ok ([], 0);
  insert_pkg = λ db p. ok db;
  insert_file = λ db f. ok db;
  insert_seg = λ db fid s. ok db;
  soft_delete = λ db j now. db;
  set_storage = λ db f s. db;
  close = λ before inner. before;
}

abbrev pub flags : FileFlags
flags = record { no_slice = 1; is_slice = λ n. n == 0; is_no_slice = λ n. n == 1 }

abbrev pkg_p : Pkg
pkg_p = record (empty_pkg "p") { has_files = true }

abbrev detail : JobDetail
detail = record {
  job_id = "u_U_p";
  fid = "f";
  file = some file;
  start_time = 0;
  finish_time = 0;
  finished_size = 0;
  state = doing;
  num_finished_segs = 0;
  checked = 0;
  update_at = 0;
  bitrate = 0;
  cur_seg_size = 0;
  err307_times = 3;
}

abbrev uploading : Job
uploading = record (new_job "u_U_p" "u" "p" upload) {
  details = ("f", some detail) ∷ [];
  num_unfinished_details = pos 1;
  is_cached = true;
}

abbrev pub site : SiteOf api Tasking.engine Unit
site = record {
  jobs = record (new_job_manager tt) { jobs = ("u_U_p", uploading) ∷ [] };
  system = system;
}

abbrev pub caller : Caller
caller = record {
  now = 100;
  uid = "u";
  ip = "10.0.0.7";
  level = common;
  max_upload = 0;
  max_download = 0;
  task_id = "t";
  reply = λ u. ok (record {
    is_ok = true;
    has_body = true;
    port = 80;
    recomend_bitrate = 7;
    file_storage = "file://n/f";
    sid_list = "f1" ∷ [];
  });
  address = λ u. record { public_addr = none; host = "127.0.0.1" };
}

abbrev ask : TransferReq
ask = record {
  fid = "f";
  from = "sender";
  seg_ids = "f1" ∷ [];
  finished_size = 0;
  num_finished_segs = 0;
  max_bitrate = 0;
}

post-Permits_example :
    Lands
      (Permits api flags Tasking.engine parse caller ask site)
      (post api flags Tasking.engine parse caller (some ask) site)
post-Permits_example = post-Permits api flags Tasking.engine parse caller ask site

busy : IsBusy api flags Tasking.engine parse caller ask file pkg_p detail site
unfolding codemigrate.Prelude.GoMap.get codemigrate.Jobs.hash_job codemigrate.Models.Engine.get_pkg
busy = record {
  named = refl;
  file_found = refl;
  pkg_found = refl;
  job = uploading;
  job_cached = refl;
  detail_cached = refl;
  busy = refl;
}

-- The client has been refused three times, and is refused twice more.
process_upload-Refusals_example :
    (site' : SiteOf api Tasking.engine Unit) × Refusals api flags Tasking.engine parse caller ask 2
      site site'
    × LetsThrough api flags Tasking.engine parse
        (process_upload api flags Tasking.engine parse caller ask site')
process_upload-Refusals_example =
    process_upload-Refusals api flags Tasking.engine parse 2 caller ask file pkg_p detail site busy
      (omega arith)

-- ===== src/Api/Packages/Active.antt =====
-- api/controllers/pkg.go: the packages that a user uploads and downloads now, and those that were deleted.
use codemigrate.Prelude.{
  ℕ, String, List, [], ◌∷◌, Option, none, some, Bool, true, false, length, ◌==◌, nat_eq, string_eq,
  if◌then◌else◌,
}
use codemigrate.Cydex.{TransferType, upload, download}
use codemigrate.Models.{File, SegRow, Pkg, Job}
use codemigrate.Models.Engine.{or_nil}
use codemigrate.Tracks.{get_track_of_delete}
use codemigrate.Jobs.{JobManager}
use codemigrate.Jobs.Queries.{get_jobs_by_uid, get_jobs_by_pid}
use codemigrate.Api.{UserLevel, is_admin, Code, fine, inner_server, ApiEngine}
use codemigrate.Api.Packages.{Shown, known_states}

-- `cydex.FileReceiver`, and `cydex.FileSender`, which has segments.
pub record FileStates : Type 0 where
  pub fid : String
  pub filename : String
  pub states : List Shown
  pub segs : List SegRow

-- `cydex.PkgUpload` and `cydex.PkgDownload`.
pub record ActivePkg : Type 0 where
  pub pid : String
  pub mtu_size : Option ℕ
  pub encryption_type : ℕ
  pub files : List FileStates

pub record QueryActivePkgRsp : Type 0 where
  pub error : Code
  pub uploads : List ActivePkg
  pub downloads : List ActivePkg
  pub del_sender_pkgs : List String
  pub del_receiver_pkgs : List String

abbrev active_pkg : Job → Pkg → List FileStates → ActivePkg
active_pkg j p l = record {
  pid = j.pid;
  mtu_size = p.mtu_size;
  encryption_type = p.encryption_type;
  files = l;
}

-- The package of a job, unless it or its list of files is nil.
abbrev pub loaded : Job → Option Pkg
loaded j = elim j.pkg [ none ↦ none | some p ↦ if p.has_files then some p else none ]

module _ (x : ApiEngine) where
  open x use {base, find_segs}

  abbrev Active : Type 0
  Active = JobManager base.Db × Bool × List ActivePkg

  -- How far the jobs are with each file; segments are shown to receivers.
  unfoldable pub file_states :
      Bool → List Job → List File → JobManager base.Db → JobManager base.Db × List FileStates
  file_states with_segs js [] jm = (jm, [])
  file_states with_segs js (f ∷ fs) jm =
      let (jm1, states) = known_states x js f jm in
      let (jm2, rest) = file_states with_segs js fs jm1 in
      let segs = if with_segs then or_nil (find_segs jm1.db f.fid) else [] in
      (jm2, record { fid = f.fid; filename = f.name; states = states; segs = segs } ∷ rest)

  -- The loop over the uploads of a user: it stops at a package that was not read.
  unfoldable pub active_uploads : List Job → JobManager base.Db → Active
  unfolding file_states
  active_uploads [] jm = (jm, true, [])
  active_uploads (j ∷ js) jm = elim (loaded j) [
    | none ↦ (jm, false, [])
    | some p ↦
        let (jm1, downs) = get_jobs_by_pid base j.pid download jm in
        let (jm2, files) = file_states false downs p.files jm1 in
        let (jm3, all, rest) = active_uploads js jm2 in (jm3, all, active_pkg j p files ∷ rest)
  ]

  -- The loop over the downloads: a package without uploader stops it as well.
  unfoldable pub active_downloads : List Job → JobManager base.Db → Active
  unfolding file_states
  active_downloads [] jm = (jm, true, [])
  active_downloads (j ∷ js) jm = elim (loaded j) [
    | none ↦ (jm, false, [])
    | some p ↦
        let (jm1, ups) = get_jobs_by_pid base j.pid upload jm in
        let (jm2, files) = file_states true ups p.files jm1 in
        let (jm3, all, rest) = active_downloads js jm2 in
        if length ups == 0 then (jm1, false, []) else (jm3, all, active_pkg j p files ∷ rest)
  ]

  -- The deleted packages are told once: they are taken from the tracks of deletions.
  unfoldable pub end_active :
      String
      → List ActivePkg
      → List ActivePkg
      → JobManager base.Db
      → JobManager base.Db × QueryActivePkgRsp
  end_active uid ups downs jm =
      let (ts1, senders) = get_track_of_delete jm.tracks uid upload true in
      let (ts2, receivers) = get_track_of_delete ts1 uid download true in
      (
        record jm { tracks = ts2 },
        record {
          error = fine;
          uploads = ups;
          downloads = downs;
          del_sender_pkgs = senders;
          del_receiver_pkgs = receivers;
        },
      )

  abbrev stopped : List ActivePkg → List ActivePkg → QueryActivePkgRsp
  stopped ups downs = record {
    error = inner_server;
    uploads = ups;
    downloads = downs;
    del_sender_pkgs = [];
    del_receiver_pkgs = [];
  }

  -- The second half of `getActive`.
  unfoldable pub show_downloads :
      String → List ActivePkg → JobManager base.Db → JobManager base.Db × QueryActivePkgRsp
  unfolding active_downloads end_active
  show_downloads uid ups jm =
      let (jm1, jobs) = get_jobs_by_uid base uid download jm in
      let (jm2, all, downs) = active_downloads jobs jm1 in
      if all then end_active uid ups downs jm2 else (jm2, stopped ups downs)

  -- `getActive`: an administrator gets nothing.
  unfoldable pub get_active :
      UserLevel → String → JobManager base.Db → JobManager base.Db × QueryActivePkgRsp
  unfolding active_uploads show_downloads
  get_active level uid jm =
      let (jm1, jobs) = get_jobs_by_uid base uid upload jm in
      let (jm2, all, ups) = active_uploads jobs jm1 in
      if is_admin level
      then (
        jm,
        record {
          error = fine;
          uploads = [];
          downloads = [];
          del_sender_pkgs = [];
          del_receiver_pkgs = [];
        },
      )
      else if all
      then show_downloads uid ups jm2
      else (jm2, stopped ups [])

-- Which of the queries for packages a request is.
pub data PkgsQuery : Type 0 where
  lite_query active_query all_query no_query : PkgsQuery
  job_query : TransferType → PkgsQuery

-- `PkgsController.Get`, by its parameters `query`, `filter` and `list`.
unfoldable pub pkgs_query : String → String → String → PkgsQuery
pkgs_query query filter list =
    if list == "list"
    then lite_query
    else if query == "all"
    then (if filter == "change" then active_query else no_query)
    else if query == "sender"
    then job_query upload
    else if query == "receiver"
    then job_query download
    else if query == "admin"
    then all_query
    else no_query

-- ===== src/Api/Packages.antt =====
-- api/controllers/pkg.go: how packages, files and jobs are shown. Times are shown as they are stored.
pub mod Storing
pub mod Creation
pub mod Stored
pub mod Created
pub mod Percent
pub mod Removal
pub mod Busy
pub mod Spared
pub mod Queries
pub mod Active
pub mod Freeing
pub mod Freed
pub mod Reaching
pub mod ActiveCaches
pub mod ToldOnce
pub mod Caching
pub mod Views
use codemigrate.Prelude.{
  ℕ, ◌+◌, ◌-◌, ◌*◌, ◌/◌, ◌%◌, ◌^◌, String, List, [], ◌∷◌, Option, none, some, Bool, true, false,
  ◌==◌, nat_eq, ltb, leb, if◌then◌else◌,
}
use codemigrate.Prelude.Int.{ℤ, pos, negsuc}
use codemigrate.Cydex.{TransferState, upload, download}
use codemigrate.Errors.{Result, ok, err}
use codemigrate.Models.{File, SegRow, Pkg, Job, JobDetail}
use codemigrate.Models.Engine.{Engine, or_missing, or_nil, get_pkg}
use codemigrate.Jobs.{JobManager}
use codemigrate.Jobs.Cache.{get_job_detail}
use codemigrate.Api.{ApiEngine}

-- `cydex.TransferState`.
pub record Shown : Type 0 where
  pub uid : String
  pub state : TransferState
  pub percent : ℤ
  pub start_time : Option ℕ
  pub finish_time : Option ℕ

pub record FileView : Type 0 where
  pub fid : String
  pub filename : String
  pub mode : ℕ
  pub size : ℕ
  pub segs : List SegRow
  pub download_state : List Shown
  pub upload_state : List Shown

pub record PkgView : Type 0 where
  pub pid : String
  pub title : String
  pub notes : String
  pub num_files : ℕ
  pub encryption_type : ℕ
  pub mtu_size : Option ℕ
  pub files : List FileView

-- `int(…)` of a `uint64`.
abbrev pub to_int : ℕ → ℤ
to_int n = if ltb n (2 ^ 63) then pos n else negsuc (2 ^ 64 - 1 - n)

abbrev at_most_hundred : ℤ → ℤ
at_most_hundred (pos n) = if ltb 100 n then pos 100 else pos n
at_most_hundred (negsuc n) = negsuc n

-- Sums and products of `uint64` wrap.
unfoldable pub percent_of : ℕ → ℕ → ℕ → ℤ
percent_of finished cur size =
    if ltb 0 size
    then at_most_hundred (to_int ((finished + cur) * 100 % 2 ^ 64 / size))
    else pos 100

abbrev time_of : ℕ → Option ℕ
time_of t = if t == 0 then none else some t

unfoldable pub fill_transfer_state : String → ℕ → JobDetail → Shown
unfolding percent_of
fill_transfer_state uid size jd = record {
  uid = uid;
  state = jd.state;
  percent = percent_of jd.finished_size jd.cur_seg_size size;
  start_time = time_of jd.start_time;
  finish_time = time_of jd.finish_time;
}

module _ (x : ApiEngine) where
  open x use {base, find_segs}

  -- How far each of the jobs is with a file; a job without a detail for it is an error.
  unfoldable pub all_states :
      List Job → File → JobManager base.Db → JobManager base.Db × Option (List Shown)
  unfolding fill_transfer_state
  all_states [] f jm = (jm, some [])
  all_states (j ∷ js) f jm =
      let (jm1, detail) = get_job_detail base j.job_id f.fid jm in
      let (jm2, rest) = all_states js f jm1 in
      elim detail [
        | none ↦ (jm1, none)
        | some jd ↦ elim rest [
          | none ↦ (jm2, none)
          | some l ↦ (jm2, some (fill_transfer_state j.uid f.size jd ∷ l))
        ]
      ]

  -- The same, where such a job is passed over.
  unfoldable pub known_states :
      List Job → File → JobManager base.Db → JobManager base.Db × List Shown
  unfolding fill_transfer_state
  known_states [] f jm = (jm, [])
  known_states (j ∷ js) f jm =
      let (jm1, detail) = get_job_detail base j.job_id f.fid jm in
      let (jm2, rest) = known_states js f jm1 in
      (jm2, elim detail [ none ↦ rest | some jd ↦ fill_transfer_state j.uid f.size jd ∷ rest ])

  abbrev pub file_view : base.Db → File → List Shown → List Shown → FileView
  file_view db f downs ups = record {
    fid = f.fid;
    filename = f.name;
    mode = f.mode;
    size = f.size;
    segs = or_nil (find_segs db f.fid);
    download_state = downs;
    upload_state = ups;
  }

  -- The loop of `aggregate` over the files of a package.
  unfoldable pub file_views :
      List Job
      → List Job
      → List File
      → JobManager base.Db
      → JobManager base.Db × Option (List FileView)
  unfolding all_states
  file_views downs ups [] jm = (jm, some [])
  file_views downs ups (f ∷ fs) jm =
      let (jm1, d) = all_states downs f jm in
      let (jm2, u) = all_states ups f jm1 in
      let (jm3, rest) = file_views downs ups fs jm2 in
      elim d [
        | none ↦ (jm1, none)
        | some ds ↦ elim u [
          | none ↦ (jm2, none)
          | some us ↦ elim rest [
            | none ↦ (jm3, none)
            | some l ↦ (jm3, some (file_view jm2.db f ds us ∷ l))
          ]
        ]
      ]

  -- `GetFiles(true)`: an error if the segments of one of the files cannot be read.
  abbrev segs_found : base.Db → List File → Bool
  segs_found db [] = true
  segs_found db (f ∷ fs) =
      let rest = segs_found db fs in elim (find_segs db f.fid) [ err e ↦ false | ok l ↦ rest ]

  abbrev pub get_files : base.Db → String → Option (List File)
  get_files db pid = elim (base.find_files db pid) [
    | err e ↦ none
    | ok fs ↦ if segs_found db fs then some fs else none
  ]

  abbrev pkg_view : Pkg → List FileView → PkgView
  pkg_view p l = record {
    pid = p.pid;
    title = p.title;
    notes = p.notes;
    num_files = p.num_files;
    encryption_type = p.encryption_type;
    mtu_size = p.mtu_size;
    files = l;
  }

  -- `aggregate` of a package that is not nil; `none` stands for every error.
  unfoldable pub aggregate : Pkg → JobManager base.Db → JobManager base.Db × Option PkgView
  unfolding file_views
  aggregate p jm = elim (get_files jm.db p.pid) [
    | none ↦ (jm, none)
    | some fs ↦ elim (base.find_jobs_by_pid jm.db p.pid download) [
      | err e ↦ (jm, none)
      | ok downs ↦ elim (base.find_jobs_by_pid jm.db p.pid upload) [
        | err e ↦ (jm, none)
        | ok ups ↦
            let (jm', views) = file_views downs ups fs jm in
            (jm', elim views [ none ↦ none | some l ↦ some (pkg_view p l) ])
      ]
    ]
  ]

  -- `aggregate` of what a query found: nil is an error.
  unfoldable pub aggregate_found :
      Option Pkg → JobManager base.Db → JobManager base.Db × Option PkgView
  unfolding aggregate
  aggregate_found none jm = (jm, none)
  aggregate_found (some p) jm = aggregate p jm

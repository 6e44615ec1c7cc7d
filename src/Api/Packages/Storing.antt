-- ===== src/Api/Packages/Storing.antt =====
-- api/controllers/pkg.go: the rows of a new package are inserted.
use codemigrate.Prelude.{
  ℕ, ◌+◌, ◌%◌, ◌^◌, String, List, [], ◌∷◌, Option, none, Bool, true, false, nat_eq, string_eq,
  length,
}
use codemigrate.Cydex.{idle}
use codemigrate.Errors.{ok, err}
use codemigrate.Models.{File, SegRow, Pkg}
use codemigrate.Unpacker.{
  DefaultUnpacker, SimpleFile, Seg, segs, cap_panic, divide_panic, endless, generate_fid,
  generate_segs,
}
use codemigrate.Api.{Code, ApiEngine}
use codemigrate.Api.Packages.{PkgView}

-- `cydex.SimpleFile`, with what only the handler reads.
pub record NewFile : Type 0 where
  pub simple : SimpleFile
  pub filename : String
  pub mode : ℕ

-- `cydex.CreatePkgReq`; `receivers` is empty if it is nil.
pub record CreatePkgReq : Type 0 where
  pub title : String
  pub notes : String
  pub encryption_type : ℕ
  pub mtu_size : Option ℕ
  pub files : List NewFile
  pub receivers : List String

pub record CreatePkgRsp : Type 0 where
  pub error : Code
  pub pkg : Option PkgView

abbrev pub rejection : Code → CreatePkgRsp
rejection c = record { error = c; pkg = none }

-- How the inserts of a session end: all done, or at an insert that failed, with the state of the session
-- there and whether the deferred function sees the error; or in a panic, or never.
pub data Storing (Db : Type 0) : Type 0 where
  stored : Db → Storing Db
  failed : Bool → Db → Storing Db
  stuck_panic : Storing Db
  stuck_endless : Storing Db

unfoldable pub total_of : List NewFile → ℕ → ℕ
total_of [] n = n
total_of (f ∷ fs) n = total_of fs ((n + f.simple.size) % 2 ^ 64)

abbrev pub new_pkg : String → CreatePkgReq → Pkg
new_pkg pid req = record {
  pid = pid;
  title = req.title;
  notes = req.notes;
  num_files = length req.files;
  size = total_of req.files 0;
  encryption_type = req.encryption_type;
  mtu_size = req.mtu_size;
  files = [];
  has_files = false;
}

abbrev pub new_file : ℕ → String → String → NewFile → List Seg → File
new_file flag pid fid f l = record {
  fid = fid;
  pid = pid;
  name = f.filename;
  size = f.simple.size;
  mode = f.mode;
  num_segs = length l;
  storage = "";
  flag = flag;
}

abbrev pub new_seg : Seg → SegRow
new_seg s = record { sid = s.sid; state = idle; size = s.size }

module _ (x : ApiEngine) where
  open x use {base, insert_pkg, insert_file, insert_seg}

  -- The error of an insert in the loop goes into a variable of the loop, which the deferred function does
  -- not see.
  unfoldable pub insert_segs : String → List Seg → base.Db → Storing base.Db
  insert_segs fid [] s = stored s
  insert_segs fid (seg ∷ l) s = elim (insert_seg s fid (new_seg seg)) [
    | err e ↦ failed false s
    | ok s' ↦ insert_segs fid l s'
  ]

  unfoldable pub store_file : DefaultUnpacker → ℕ → String → ℕ → NewFile → base.Db → Storing base.Db
  unfolding insert_segs
  store_file u flag pid i f s = elim (generate_fid u pid i) [
    | err e ↦ failed true s
    | ok fid ↦ elim (generate_segs u fid f.simple) [
      | cap_panic ↦ stuck_panic
      | divide_panic ↦ stuck_panic
      | endless ↦ stuck_endless
      | segs l ↦ elim (insert_file s (new_file flag pid fid f l)) [
        | err e ↦ failed false s
        | ok s' ↦ insert_segs fid l s'
      ]
    ]
  ]

  -- The loop over the files, from index `i`.
  unfoldable pub store_files :
      DefaultUnpacker → ℕ → String → ℕ → List NewFile → base.Db → Storing base.Db
  unfolding store_file
  store_files u flag pid i [] s = stored s
  store_files u flag pid i (f ∷ fs) s = elim (store_file u flag pid i f s) [
    | failed seen s' ↦ failed seen s'
    | stuck_panic ↦ stuck_panic
    | stuck_endless ↦ stuck_endless
    | stored s' ↦ store_files u flag pid (i + 1) fs s'
  ]

  unfoldable pub store_pkg : DefaultUnpacker → ℕ → Pkg → List NewFile → base.Db → Storing base.Db
  unfolding store_files
  store_pkg u flag p fs s = elim (insert_pkg s p) [
    | err e ↦ failed true s
    | ok s' ↦ store_files u flag p.pid 0 fs s'
  ]

-- ===== src/Api.antt =====
-- api/controllers/*.go: what the handlers of http requests share. The bodies and headers of requests are
-- arguments, already decoded; a response is a value.
pub mod Transfers
pub mod Packages
pub mod Zones
pub mod Statistics
use codemigrate.Prelude.{
  ℕ, String, List, [], Option, none, some, Bool, true, false, ◌==◌, nat_eq, ltb, ◌&&◌,
  if◌then◌else◌,
}
use codemigrate.Errors.{Result, ok, err}
use codemigrate.Cydex.{TransferType}
use codemigrate.Models.{File, SegRow, Pkg, Job}
use codemigrate.Models.Engine.{Engine}
use codemigrate.Jobs.{JobManager}
use codemigrate.Tasks.{TaskEngine}
use codemigrate.Tasks.Dispatch.{System}

-- `cydex.USER_LEVEL_COMMON`, `_UPLOAD_ONLY`, `_DOWNLOAD_ONLY`, `_ADMIN`; any other number is unknown.
pub data UserLevel : Type 0 where
  common upload_only download_only admin : UserLevel
  other_level : ℕ → UserLevel

abbrev pub is_admin : UserLevel → Bool
is_admin admin = true
is_admin _ = false

-- The codes of responses: `cydex.OK`, which is also the zero value, and `cydex.Err…`.
pub data Code : Type 0 where
  fine not_allowed invalid_param inner_server : Code
  package_not_existed file_not_existed create_transfer_again : Code

-- `cydex.Pagination`; a page that does not verify is `none`.
pub record Page : Type 0 where
  pub page_size : ℕ
  pub page_num : ℕ

-- What `parseJobFilter` reads; 0 is the zero time.
pub record JobFilter : Type 0 where
  pub owner : String
  pub title : String
  pub order_by : String
  pub beg_time : ℕ
  pub end_time : ℕ

-- The rows that only the handlers read and write. `close` is what closing a session that was neither
-- committed nor rolled back makes of the database, given its state before and the session's. A query for
-- a page also tells how many rows there are in all.
pub record ApiEngine : Type 1 where
  pub base : Engine
  pub find_segs : base.Db → String → Result (List SegRow)
  pub find_jobs_of : base.Db → TransferType → Option Page → Result (List Job × ℕ)
  pub find_jobs_by_uid : base.Db → String → TransferType → Option Page → Result (List Job × ℕ)
  pub find_jobs_ex : base.Db → TransferType → Option Page → JobFilter → Result (List Job × ℕ)
  pub insert_pkg : base.Db → Pkg → Result base.Db
  pub insert_file : base.Db → File → Result base.Db
  pub insert_seg : base.Db → String → SegRow → Result base.Db
  pub soft_delete : base.Db → Job → ℕ → base.Db
  pub set_storage : base.Db → File → String → base.Db
  pub close : base.Db → base.Db → base.Db

-- What the package `cydex` says of the flags of files.
pub record FileFlags : Type 0 where
  pub no_slice : ℕ
  pub is_slice : ℕ → Bool
  pub is_no_slice : ℕ → Bool

-- The managers that a handler works on.
pub record Site (Db TaskDb NodeDb : Type 0) : Type 0 where
  pub jobs : JobManager Db
  pub system : System TaskDb NodeDb

abbrev pub SiteOf : ApiEngine → TaskEngine → Type 0 → Type 0
SiteOf x tx NodeDb = Site x.base.Db tx.Db NodeDb

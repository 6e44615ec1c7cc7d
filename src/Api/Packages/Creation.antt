-- ===== src/Api/Packages/Creation.antt =====
-- api/controllers/pkg.go: a package is created.
use codemigrate.Prelude.{
  ℕ, String, List, [], ◌∷◌, Option, none, some, Bool, true, false, ◌==◌, nat_eq, string_eq, not,
  if◌then◌else◌,
}
use codemigrate.Cydex.{upload, download}
use codemigrate.Errors.{ok, err}
use codemigrate.Models.{Pkg}
use codemigrate.Nodes.{Outcome, returns, panics, deadlocks}
use codemigrate.Jobs.{JobManager}
use codemigrate.Jobs.Lifecycle
use codemigrate.Jobs.Lifecycle.{Ending, nil_panic, create_job}
use codemigrate.Unpacker.{DefaultUnpacker, generate_pid}
use codemigrate.Api.{
  UserLevel, is_admin, fine, not_allowed, invalid_param, inner_server, ApiEngine, FileFlags,
}
use codemigrate.Api.Packages.{PkgView, aggregate}
use codemigrate.Api.Packages.Storing.{
  CreatePkgReq, CreatePkgRsp, rejection, Storing, stored, failed, stuck_panic, stuck_endless,
  new_pkg, store_pkg,
}

-- A session: what the database is while nothing is committed, and the state that the session sees. If
-- `Begin` fails, each statement goes to the database at once.
pub record Session (Db : Type 0) : Type 0 where
  pub outside : Db
  pub inside : Db
  pub auto : Bool

module _ (x : ApiEngine) where
  open x use {base, close}

  unfoldable pub begin_session : base.Db → Session base.Db
  begin_session db = elim (base.begin db) [
    | err e ↦ record { outside = db; inside = db; auto = true }
    | ok s ↦ record { outside = db; inside = s; auto = false }
  ]

  -- The deferred function: a rollback if it sees an error, and in any case `Close`.
  unfoldable pub give_up : Session base.Db → Bool → base.Db → base.Db
  give_up s seen inside =
      if s.auto then inside else if seen then s.outside else close s.outside inside

  -- `session.Commit()`, whose error is dropped.
  unfoldable pub commit_session : Session base.Db → base.Db → base.Db
  commit_session s inside =
      if s.auto then inside else elim (base.commit inside) [ ok db ↦ db | err e ↦ s.outside ]

  -- `CreateJob` for each receiver, its errors dropped.
  unfoldable pub create_downloads :
      ℕ → List String → String → JobManager base.Db → Ending (JobManager base.Db)
  create_downloads now [] pid jm = Lifecycle.returns jm
  create_downloads now (uid ∷ uids) pid jm = elim (create_job base now uid pid download jm) [
    | nil_panic ↦ nil_panic
    | Lifecycle.returns (jm', e) ↦ create_downloads now uids pid jm'
  ]

  unfoldable pub create_jobs :
      ℕ → String → List String → String → JobManager base.Db → Ending (JobManager base.Db)
  unfolding create_downloads
  create_jobs now uid receivers pid jm = elim (create_job base now uid pid upload jm) [
    | nil_panic ↦ nil_panic
    | Lifecycle.returns (jm', e) ↦ create_downloads now receivers pid jm'
  ]

  abbrev show_pkg : JobManager base.Db × Option PkgView → JobManager base.Db × CreatePkgRsp
  show_pkg (jm, none) = (jm, rejection inner_server)
  show_pkg (jm, some v) = (jm, record { error = fine; pkg = some v })

  -- After the commit.
  unfoldable pub dispatch_jobs :
      ℕ
      → String
      → CreatePkgReq
      → Pkg
      → JobManager base.Db
      → Outcome (JobManager base.Db × CreatePkgRsp)
  unfolding create_jobs
  dispatch_jobs now uid req p jm = elim (create_jobs now uid req.receivers p.pid jm) [
    | nil_panic ↦ panics
    | Lifecycle.returns jm' ↦ returns (show_pkg (aggregate x p jm'))
  ]

  unfoldable pub end_storing :
      ℕ
      → String
      → CreatePkgReq
      → Pkg
      → JobManager base.Db
      → Session base.Db
      → Storing base.Db
      → Outcome (JobManager base.Db × CreatePkgRsp)
  unfolding give_up commit_session dispatch_jobs
  end_storing now uid req p jm s (stored inside) =
      dispatch_jobs now uid req p (record jm { db = commit_session s inside })
  end_storing now uid req p jm s (failed seen inside) =
      returns (record jm { db = give_up s seen inside }, rejection inner_server)
  end_storing now uid req p jm s stuck_panic = panics
  end_storing now uid req p jm s stuck_endless = deadlocks

  -- `createPkg`. `flag` is the flag of the files, `FILE_FLAG_NO_SLICE` unless files are cut. A loop without
  -- end keeps the lock of the unpacker for ever.
  unfoldable pub create_pkg :
      (CreatePkgReq → Bool)
      → DefaultUnpacker
      → ℕ
      → ℕ
      → String
      → CreatePkgReq
      → JobManager base.Db
      → Outcome (JobManager base.Db × CreatePkgRsp)
  unfolding store_pkg begin_session end_storing
  create_pkg verify u flag now uid req jm =
      if not (verify req)
      then returns (jm, rejection invalid_param)
      else if uid == ""
      then returns (jm, rejection invalid_param)
      else (let p = new_pkg (generate_pid u now uid) req in
          let s = begin_session jm.db in
          end_storing now uid req p jm s (store_pkg x u flag p req.files s.inside))

  abbrev pub file_flag : FileFlags → Bool → ℕ
  file_flag flags use_file_slice = if use_file_slice then 0 else flags.no_slice

  -- `PkgsController.Post`: a body that cannot be decoded is `none`.
  unfoldable pub post_pkg :
      (CreatePkgReq → Bool)
      → DefaultUnpacker
      → ℕ
      → ℕ
      → UserLevel
      → String
      → Option CreatePkgReq
      → JobManager base.Db
      → Outcome (JobManager base.Db × CreatePkgRsp)
  unfolding create_pkg
  post_pkg verify u flag now level uid body jm =
      if is_admin level then returns (jm, rejection not_allowed) else elim body [
        | none ↦ returns (jm, rejection invalid_param)
        | some req ↦ create_pkg verify u flag now uid req jm
      ]

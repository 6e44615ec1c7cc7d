-- ===== src/Api/Packages/Views.antt =====
-- api/controllers/pkg.go: what queries show to whom, and what they leave behind.
use codemigrate.Prelude.{
  String, ◌≡◌, refl, ◌⊎◌, inl, inr, Option, none, some, true, ◌==◌, nat_eq, string_eq, not, by_if,
  Option-cases, subst, by_option,
}
use codemigrate.Cydex.{TransferType, upload, download}
use codemigrate.Errors.{ok}
use codemigrate.Models.{Job}
use codemigrate.Models.Engine.{or_missing, get_pkg, get_job_row, held_job}
use codemigrate.Jobs.{JobManager, hash_job}
use codemigrate.Api.{UserLevel, is_admin, Code, package_not_existed, ApiEngine}
use codemigrate.Api.Packages.{FileView}
use codemigrate.Api.Packages.Queries.{
  get_single_pkg, get_file, either_job, either_held, job_for_file, show_job, show_or,
}
use codemigrate.Api.Packages.Caching.{OnlyCaches, aggregate-OnlyCaches, show_file-OnlyCaches}

module _ (x : ApiEngine) where
  open x use {base}

  -- The user is an administrator, or there is a job by which the user sends or receives the package.
  abbrev pub MaySee : UserLevel → String → String → base.Db → Type 0
  MaySee level uid pid db =
      (is_admin level ≡ true)
      ⊎ ((typ : TransferType) × (j : Job) × (held_job base db (hash_job uid pid typ) ≡ some j))

  -- What a query answers with: nothing, or a view that the user may see; and it only caches jobs.
  pub record IsQuery {A : Type 0} (level : UserLevel) (uid pid : String) (jm : JobManager base.Db)
      (r : JobManager base.Db × Code × Option A) : Type 0 where
    pub caches : OnlyCaches jm r.0
    pub allowed : (r.2 ≡ none) ⊎ MaySee level uid pid jm.db

  missing_row :
      (db : base.Db) (jobid : String)
      → or_missing (base.find_job db jobid) ≡ none
      → get_job_row base db jobid true ≡ ok none
  unfolding get_job_row
  missing_row db jobid e = rw (e, get_job_row) refl

  none_held : {A : Type 0} {j : Job} → none ≡ some j → A
  none_held h = cc

  -- A job that is found without an error is held.
  get_job_row-held_job :
      (db : base.Db) (jobid : String) (j : Job)
      → or_missing (get_job_row base db jobid true) ≡ some j
      → (j' : Job) × (held_job base db jobid ≡ some j')
  unfolding get_job_row held_job
  get_job_row-held_job db jobid j h = elim (Option-cases (or_missing (base.find_job db jobid))) [
    | inl e ↦ none_held (subst (λ r. or_missing r ≡ some j) (missing_row db jobid e) h)
    | inr (row, e) ↦
        (record row { pkg = or_missing (get_pkg base db row.pid) }, rw (e, held_job) refl)
  ]

  either_held-MaySee :
      (level : UserLevel) (uid pid : String) (first second : TransferType) (db : base.Db) (j : Job)
      → either_held x uid pid first second db ≡ some j
      → MaySee level uid pid db
  unfolding either_held
  either_held-MaySee level uid pid first second db j h =
      by_option (λ (o : Option Job). o ≡ some j → MaySee level uid pid db)
        (held_job base db (hash_job uid pid first)) (λ k. inr (second, j, k))
        (λ k e _. inr (first, k, e)) h

  either_job-MaySee :
      (level : UserLevel) (uid pid : String) (first second : TransferType) (db : base.Db) (j : Job)
      → either_job x uid pid first second db ≡ some j
      → MaySee level uid pid db
  unfolding either_job
  either_job-MaySee level uid pid first second db j h =
      by_option (λ (o : Option Job). o ≡ some j → MaySee level uid pid db)
        (or_missing (get_job_row base db (hash_job uid pid first) true))
        (λ k.
          let (i, e) = get_job_row-held_job db (hash_job uid pid second) j k in inr (second, i, e))
        (λ k e _.
          let (i, q) = get_job_row-held_job db (hash_job uid pid first) k e in inr (first, i, q))
        h

  show_or-IsQuery :
      (level : UserLevel) (uid pid : String) (code : Code) (o : Option Job)
      (jm : JobManager base.Db)
      → ((j : Job) → o ≡ some j → MaySee level uid pid jm.db)
      → IsQuery level uid pid jm (show_or x code o jm)
  unfolding show_job
  show_or-IsQuery level uid pid code none jm may = record { caches = refl; allowed = inl refl }
  show_or-IsQuery level uid pid code (some j) jm may = record {
    caches = aggregate-OnlyCaches x (or_missing (get_pkg base jm.db j.pid)) jm;
    allowed = inr (may j refl);
  }

  get_single_pkg-IsQuery :
      (level : UserLevel) (uid pid : String) (jm : JobManager base.Db)
      → IsQuery level uid pid jm (get_single_pkg x level uid pid jm)
  unfolding get_single_pkg
  get_single_pkg-IsQuery level uid pid jm =
      by_if (IsQuery level uid pid jm) (is_admin level)
        (λ admin. show_or-IsQuery level uid pid _ _ jm (λ j _. inl admin))
        (λ _.
          show_or-IsQuery level uid pid _ _ jm
            (λ j e. either_job-MaySee level uid pid upload download jm.db j e))

  get_file-IsQuery :
      (level : UserLevel) (uid pid fid : String) (jm : JobManager base.Db)
      → IsQuery level uid pid jm (get_file x level uid pid fid jm)
  unfolding get_file job_for_file
  get_file-IsQuery level uid pid fid jm =
      let P : JobManager base.Db × Code × Option FileView → Type 0 = IsQuery level uid pid jm in
      let nothing : (code : Code) → P (jm, code, none) =
        λ code. record { caches = refl; allowed = inl refl } in
      by_option P (or_missing (base.find_file jm.db fid)) (nothing package_not_existed) (λ f _.
        by_if P (not (f.pid == pid)) (λ _. nothing package_not_existed)
          (λ _.
            by_option P (job_for_file x level uid pid jm.db) (nothing package_not_existed) (λ j e.
              record {
                caches = show_file-OnlyCaches x pid f jm;
                allowed = inr (
                    by_if (λ o. o ≡ some j → MaySee level uid pid jm.db) (is_admin level)
                      (λ admin _. inl admin)
                      (λ _ k. either_held-MaySee level uid pid download upload jm.db j k) e);
              })))

  -- The queries for a package and for a file of it leave the job manager as it was but for its cache of jobs,
  -- and they show nothing to a user who is not an administrator and has no job for the package.
  pub queries-IsQuery :
      (level : UserLevel) (uid pid : String) (jm : JobManager base.Db)
      → IsQuery level uid pid jm (get_single_pkg x level uid pid jm)
        × ((fid : String) → IsQuery level uid pid jm (get_file x level uid pid fid jm))
  queries-IsQuery level uid pid jm =
      (get_single_pkg-IsQuery level uid pid jm, λ fid. get_file-IsQuery level uid pid fid jm)

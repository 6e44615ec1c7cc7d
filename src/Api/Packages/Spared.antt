-- ===== src/Api/Packages/Spared.antt =====
-- api/controllers/pkg.go: which packages a request for deletion deletes.
use mathlib.Core.Option
use mathlib.Core.List.{Memᴰ}
use codemigrate.Prelude.{
  String, List, [], ◌∷◌, ◌≡◌, refl, ◌≢◌, sym, subst, ◌∙◌, inl, inr, Option, none, some, Bool, true,
  false, ◌==◌, nat_eq, string_eq, length, by_if, Option-cases, if◌then◌else◌,
}
use codemigrate.Prelude.GoMap.{GoMap}
use codemigrate.Cydex.{upload}
use codemigrate.Errors.{Error, Result, ok, err}
use codemigrate.TaskTypes.{Task}
use codemigrate.Models.{Job}
use codemigrate.Models.Engine.{held_job}
use codemigrate.Nodes.{Outcome, returns, panics}
use codemigrate.Jobs.{JobManager, hash_job}
use codemigrate.Api.{UserLevel, is_admin, Code, fine, invalid_param, ApiEngine}
use codemigrate.Api.Packages.Busy.{Busy, HasNil, Scan, in_transfer-Scan}
use codemigrate.Api.Packages.Removal.{
  Spawned, free_pkg_spaces, DelPkgsRsp, in_transfer, is_jobs_transferring, avail_jobs, own_jobs,
  first_jobs, delete_upload_jobs, delete_avail, delete_pkgs,
}

abbrev Has : {A : Type 0} → (A → Type 0) → Option A → Type 0
Has P none = Unit
Has P (some a) = P a

Has-weaken :
    {A : Type 0} {P Q : A → Type 0} (o : Option A) → ((a : A) → P a → Q a) → Has P o → Has Q o
Has-weaken none h p = tt
Has-weaken (some a) h p = h a p

Has-map :
    {A B : Type 0} {P : A → Type 0} (Q : B → Type 0) (f : A → B) (o : Option A)
    → ((a : A) → P a → Q (f a))
    → Has P o
    → Has Q (Option.map f o)
Has-map Q f none h p = tt
Has-map Q f (some a) h p = h a p

err-ne-ok : {A : Type 0} (e : Error) (a : A) → err e ≢ ok a
err-ne-ok e a h = cc

head_eq : (j k : Job) (js ks : List Job) → ok (j ∷ js) ≡ ok (k ∷ ks) → j ≡ k
head_eq j k js ks h = cc

module _ (x : ApiEngine) where
  open x use {base}

  -- The job that a request for the package means: the user's own upload, or for an administrator the first
  -- upload of the package.
  abbrev pub Means : Bool → String → base.Db → String → Job → Type 0
  Means by_admin uid db pid j =
      if by_admin
      then ((js : List Job) × (base.find_jobs_by_pid db pid upload ≡ ok (j ∷ js)))
      else held_job base db (hash_job uid pid upload) ≡ some j

  -- Of the packages that are named, just the jobs that are meant and whose packages no task transfers, in
  -- that order.
  pub data Chosen (means : String → Job → Type 0) (tasks : GoMap String (Option Task))
      : List String → List Job → Type 0 where
    nothing : Chosen means tasks [] []
    spared :
        (pid : String) (pids : List String) (js : List Job)
        → ((j : Job) → means pid j → Busy j.pid tasks)
        → Chosen means tasks pids js
        → Chosen means tasks (pid ∷ pids) js
    taken :
        (pid : String) (pids : List String) (j : Job) (js : List Job)
        → means pid j
        → ¬ Busy j.pid tasks
        → Chosen means tasks pids js
        → Chosen means tasks (pid ∷ pids) (j ∷ js)

  abbrev free : GoMap String (Option Task) → List Job → Option (List Job)
  free tasks js = Option.map (avail_jobs js) (is_jobs_transferring js tasks)

  -- The chosen jobs, or nothing, for which a nil task in the cache is to blame.
  abbrev Ends :
      (String → Job → Type 0)
      → GoMap String (Option Task)
      → List String
      → Option (List Job)
      → Type 0
  Ends means tasks pids none = HasNil tasks
  Ends means tasks pids (some js) = Chosen means tasks pids js

  Ends-spared :
      (means : String → Job → Type 0) (tasks : GoMap String (Option Task)) (pid : String)
      (pids : List String) (o : Option (List Job))
      → ((j : Job) → means pid j → Busy j.pid tasks)
      → Ends means tasks pids o
      → Ends means tasks (pid ∷ pids) o
  Ends-spared means tasks pid pids none h n = n
  Ends-spared means tasks pid pids (some js) h c = spared pid pids js h c

  one_by_flag :
      (means : String → Job → Type 0) (tasks : GoMap String (Option Task)) (pid : String)
      (pids : List String) (j : Job) (js : List Job)
      → means pid j
      → ((k : Job) → means pid k → k ≡ j)
      → (scan : Option Bool) (rest : Option (List Bool)) → Scan j.pid tasks scan
      → Ends means tasks pids (Option.map (avail_jobs js) rest)
      → Ends means tasks (pid ∷ pids) (
          Option.map
            (avail_jobs (j ∷ js))
            (elim scan [ none ↦ none | some b ↦ Option.map (λ bs. b ∷ bs) rest ]))
  unfolding avail_jobs
  one_by_flag means tasks pid pids j js m only none rest n c = n
  one_by_flag means tasks pid pids j js m only (some b) none s n = n
  one_by_flag means tasks pid pids j js m only (some true) (some bs) busy c =
      spared pid pids (avail_jobs js bs) (λ k n. rw (only k n) busy) c
  one_by_flag means tasks pid pids j js m only (some false) (some bs) idle c =
      taken pid pids j (avail_jobs js bs) m idle c

  one_more :
      (means : String → Job → Type 0) (tasks : GoMap String (Option Task)) (pid : String)
      (pids : List String) (j : Job) (js : List Job)
      → means pid j
      → ((k : Job) → means pid k → k ≡ j)
      → Ends means tasks pids (free tasks js)
      → Ends means tasks (pid ∷ pids) (free tasks (j ∷ js))
  unfolding is_jobs_transferring
  one_more means tasks pid pids j js m only c =
      one_by_flag means tasks pid pids j js m only (in_transfer j.pid tasks)
        (is_jobs_transferring js tasks) (in_transfer-Scan j.pid tasks) c

  own_jobs-Chosen :
      (uid : String) (db : base.Db) (tasks : GoMap String (Option Task)) (pids : List String)
      → Ends
          (λ pid j. held_job base db (hash_job uid pid upload) ≡ some j)
          tasks
          pids
          (free tasks (own_jobs x uid pids db))
  unfolding own_jobs is_jobs_transferring avail_jobs
  own_jobs-Chosen uid db tasks [] = nothing
  own_jobs-Chosen uid db tasks (pid ∷ pids) =
      let row : String → Option Job = λ p. held_job base db (hash_job uid p upload) in
      let means : String → Job → Type 0 = λ p j. row p ≡ some j in
      let js = own_jobs x uid pids db in
      let rest = own_jobs-Chosen uid db tasks pids in
      elim (Option-cases (row pid)) [
        | inl missing ↦
            rw (missing, own_jobs)
              (Ends-spared means tasks pid pids (free tasks js) (λ j k. cc) rest)
        | inr (j, found) ↦
            rw (found, own_jobs) (one_more means tasks pid pids j js found (λ k n. cc) rest)
      ]

  -- What `first_jobs` does with the first package, by what the query finds.
  data Looked (db : base.Db) (pid : String) : Type 0 where
    unread : (e : Error) → base.find_jobs_by_pid db pid upload ≡ err e → Looked db pid
    no_job : base.find_jobs_by_pid db pid upload ≡ ok [] → Looked db pid
    a_job :
        (j : Job) (js : List Job)
        → base.find_jobs_by_pid db pid upload ≡ ok (j ∷ js)
        → Looked db pid

  look :
      (db : base.Db) (pid : String) (r : Result (List Job))
      → base.find_jobs_by_pid db pid upload ≡ r
      → Looked db pid
  look db pid (err e) h = unread e h
  look db pid (ok []) h = no_job h
  look db pid (ok (j ∷ js)) h = a_job j js h

  abbrev First : base.Db → String → Job → Type 0
  First db pid j = (js : List Job) × (base.find_jobs_by_pid db pid upload ≡ ok (j ∷ js))

  first_jobs-Chosen :
      (db : base.Db) (tasks : GoMap String (Option Task)) (pids : List String)
      → Has (λ js. Ends (First db) tasks pids (free tasks js)) (first_jobs x pids db)
  unfolding first_jobs is_jobs_transferring avail_jobs
  first_jobs-Chosen db tasks [] = nothing
  first_jobs-Chosen db tasks (pid ∷ pids) =
      let rest = first_jobs-Chosen db tasks pids in
      elim (look db pid _ refl) [
        | unread e h ↦
            rw (h, first_jobs)
              (Has-weaken (first_jobs x pids db)
                (λ js c.
                  Ends-spared (First db) tasks pid pids (free tasks js)
                    (λ j (k, n). absurd (err-ne-ok e (j ∷ k) (sym h ∙ n))) c)
                rest)
        | no_job h ↦ rw (h, first_jobs) tt
        | a_job j js h ↦
            rw (h, first_jobs)
              (Has-map (λ l. Ends (First db) tasks (pid ∷ pids) (free tasks l)) (λ l. j ∷ l)
                (first_jobs x pids db)
                (λ l c.
                  one_more (First db) tasks pid pids j l (js, h)
                    (λ k (ks, n). head_eq k j ks js (sym n ∙ h)) c)
                rest)
      ]

  some-ne-none :
      {A : Type 0} (f : List Job → A) (o : Option (List Job)) → Option.map f o ≡ none → o ≡ none
  some-ne-none f none h = refl
  some-ne-none f (some a) h = cc

  -- The package without uploads that makes `first_jobs` panic.
  no_first :
      (pids : List String) (db : base.Db)
      → first_jobs x pids db ≡ none
      → (pid : String) × Memᴰ pid pids × (base.find_jobs_by_pid db pid upload ≡ ok [])
  unfolding first_jobs
  no_first [] db h = cc
  no_first (pid ∷ pids) db h = elim (look db pid _ refl) [
    | unread e q ↦ let (k, m, r) = no_first pids db (cc (q, h)) in (k, Memᴰ.tail m, r)
    | no_job q ↦ (pid, Memᴰ.head refl, q)
    | a_job j js q ↦
        let (k, m, r) =
          no_first pids db (some-ne-none (λ l. j ∷ l) (first_jobs x pids db) (cc (q, h))) in
        (k, Memᴰ.tail m, r)
  ]

  -- How a request ends: refused with nothing done, in a panic, or with the chosen jobs deleted and counted.
  pub data DeleteCase (by_admin : Bool) (uid : String) (pids : List String)
      (tasks : GoMap String (Option Task)) (jm : JobManager base.Db)
      : Outcome (JobManager base.Db × DelPkgsRsp × List Spawned) → Type 0 where
    refused :
        (code : Code)
        → DeleteCase by_admin uid pids tasks jm
            (returns (jm, record { error = code; num_del_pkgs = 0 }, []))
    no_uploader :
        (pid : String)
        → by_admin ≡ true
        → Memᴰ pid pids
        → base.find_jobs_by_pid jm.db pid upload ≡ ok []
        → DeleteCase by_admin uid pids tasks jm panics
    nil_task : HasNil tasks → DeleteCase by_admin uid pids tasks jm panics
    deleted :
        (js : List Job)
        → Chosen (Means by_admin uid jm.db) tasks pids js
        → DeleteCase by_admin uid pids tasks jm (
            returns (
              delete_upload_jobs x js jm,
              record { error = fine; num_del_pkgs = length js },
              free_pkg_spaces js ∷ [],
            ))

  delete_avail-DeleteCase :
      (by_admin : Bool) (uid : String) (pids : List String) (jobs : List Job)
      (tasks : GoMap String (Option Task)) (jm : JobManager base.Db)
      → Ends (Means by_admin uid jm.db) tasks pids (free tasks jobs)
      → DeleteCase by_admin uid pids tasks jm (delete_avail x tasks jm jobs)
  unfolding delete_avail
  delete_avail-DeleteCase by_admin uid pids jobs tasks jm h =
      elim (Option-cases (free tasks jobs)) [
        | inl e ↦
            rw (e, delete_avail) (nil_task (subst (Ends (Means by_admin uid jm.db) tasks pids) e h))
        | inr (js, e) ↦
            rw (e, delete_avail)
              (deleted js (subst (Ends (Means by_admin uid jm.db) tasks pids) e h))
      ]

  delete-DeleteCase :
      (by_admin : Bool) (uid : String) (pids : List String) (tasks : GoMap String (Option Task))
      (jm : JobManager base.Db)
      → DeleteCase by_admin uid pids tasks jm (
          if by_admin
          then elim (first_jobs x pids jm.db) [
            | none ↦ panics
            | some jobs ↦ delete_avail x tasks jm jobs
          ]
          else delete_avail x tasks jm (own_jobs x uid pids jm.db))
  delete-DeleteCase false uid pids tasks jm =
      delete_avail-DeleteCase false uid pids (own_jobs x uid pids jm.db) tasks jm
        (own_jobs-Chosen uid jm.db tasks pids)
  delete-DeleteCase true uid pids tasks jm = elim (Option-cases (first_jobs x pids jm.db)) [
    | inl e ↦ let (pid, m, h) = no_first pids jm.db e in rw e (no_uploader pid refl m h)
    | inr (js, e) ↦ rw e (
        delete_avail-DeleteCase true uid pids js tasks jm (
          subst (Has (λ l. Ends (First jm.db) tasks pids (free tasks l))) e
            (first_jobs-Chosen jm.db tasks pids)))
  ]

  -- A request to delete packages is refused with nothing done, or it deletes and counts just the jobs that
  -- it means and whose packages no task transfers: the user's own uploads, or for an administrator the
  -- first upload of each package. It can panic only if the cache of tasks holds a nil task, or if an
  -- administrator names a package that has no upload.
  pub delete_pkgs-DeleteCase :
      (level : UserLevel) (uid : String) (pids : List String) (tasks : GoMap String (Option Task))
      (jm : JobManager base.Db)
      → DeleteCase (is_admin level) uid pids tasks jm (delete_pkgs x level uid (some pids) tasks jm)
  unfolding delete_pkgs
  delete_pkgs-DeleteCase level uid pids tasks jm =
      let P : Outcome (JobManager base.Db × DelPkgsRsp × List Spawned) → Type 0 =
        DeleteCase (is_admin level) uid pids tasks jm in
      by_if P (uid == "") (λ _. refused invalid_param)
        (λ _.
          by_if P (length pids == 0) (λ _. refused invalid_param)
            (λ _. delete-DeleteCase (is_admin level) uid pids tasks jm))

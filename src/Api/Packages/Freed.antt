-- ===== src/Api/Packages/Freed.antt =====
-- api/controllers/pkg.go: what it comes to when the files of a package are removed from nodes.
use native.Mathlib.Decide.{ℕ_discrete}
use codemigrate.Jobs.{JobManager}
use codemigrate.Prelude.{
  ℕ, String, List, [], ◌∷◌, ◌++◌, ◌≡◌, ◌≢◌, refl, ◌∙◌, sym, ap, subst, Option, none, some, false,
  ◌==◌, ==_iff, nat_eq, string_eq, All, arith, by_missing,
}
use codemigrate.Errors.{Error, Result, ok, err, by_result}
use codemigrate.Models.{File, Job}
use codemigrate.Nodes.{Outcome, returns, and_then, node_at}
use codemigrate.Nodes.Messages.{send_request, end_request}
use codemigrate.Schedulers.Default
use codemigrate.Schedulers.Default.{Url, DefaultScheduler}
use codemigrate.Tasks.{TaskEngine}
use codemigrate.Tasks.Downloads.{DownloadReq}
use codemigrate.Api.{ApiEngine, FileFlags, SiteOf}
use codemigrate.Api.Transfers.{FileDetail, Caller, get_file_detail}
use codemigrate.Api.Transfers.Downloads.{build_task_download_req}
use codemigrate.Api.Packages.{get_files}
use codemigrate.Api.Packages.Reaching.{
  SameNodes, OnNode, Sent, no_request, request, Sent-earlier, send_request-SameNodes,
  end_request-SameNodes, then_same, sent_open, OnNode-dispatch_download,
}
use codemigrate.Api.Packages.Freeing.{
  RemoveFileReq, Removal, whole_file, files_of, mark_removed, send_removal, dispatch_removal,
  free_file, free_files, free_pkg_space,
}

ok_inj : (r : Result (Option ℕ)) (v u : ℕ) → r ≡ ok (some v) → r ≡ ok (some u) → v ≡ u
ok_inj r v u e h = cc

not_err : {A : Type 0} (r : Result (Option ℕ)) (v : ℕ) (e : Error) → r ≡ ok (some v) → r ≡ err e → A
not_err r v e h k = cc

not_nil : {A : Type 0} (r : Result (Option ℕ)) (v : ℕ) → r ≡ ok (some v) → r ≡ ok none → A
not_nil r v h k = cc

full_size : (f : File) → f.size ≢ 0 → (f.size == 0) ≡ false
full_size f h = ground (arith, h)

module _ (x : ApiEngine) (flags : FileFlags) where
  open x use {base}

  -- The detail of a file and a request for its download can be made.
  abbrev pub Readable : Caller → Job → base.Db → File → Type 0
  Readable c j db f =
      (detail : Option FileDetail) × (req : DownloadReq) × (get_file_detail x flags db f
        ≡ returns detail)
      × (build_task_download_req x flags c (whole_file f.fid) j.pid "" db ≡ returns (some req))

module _ (x : ApiEngine) (flags : FileFlags) (tx : TaskEngine) {NodeDb : Type 0}
    (parse : String → Result Url) where
  open x use {base}

  -- What is sent for files, in their order: nothing for those that are empty.
  pub data Asked (c : Caller) (j : Job) (site : SiteOf x tx NodeDb)
      : List File → List Removal → Type 0 where
    no_files : Asked c j site [] []
    empty_file :
        (f : File) (fs : List File) (ms : List Removal)
        → f.size ≡ 0
        → Asked c j site fs ms
        → Asked c j site (f ∷ fs) ms
    full_file :
        (f : File) (fs : List File) (ms ms' : List Removal) (req : DownloadReq)
        → f.size ≢ 0
        → build_task_download_req x flags c (whole_file f.fid) j.pid "" site.jobs.db
          ≡ returns (some req)
        → Sent parse site.system.nodes j f req.file_storage ms
        → Asked c j site fs ms'
        → Asked c j site (f ∷ fs) (ms ++ ms')

  -- Nothing changes in the job manager and the task manager, and no node is connected or closed.
  pub record Keeps (site site' : SiteOf x tx NodeDb) : Type 0 where
    pub jobs : site'.jobs ≡ site.jobs
    pub tasks : site'.system.tasks ≡ site.system.tasks
    pub nodes : SameNodes site.system.nodes site'.system.nodes

  Keeps-self : (site : SiteOf x tx NodeDb) → Keeps site site
  Keeps-self site = record { jobs = refl; tasks = refl; nodes = (refl, λ q. refl) }

  -- One file.
  abbrev Step :
      Job → File → String → SiteOf x tx NodeDb → SiteOf x tx NodeDb × List Removal → Type 0
  Step j f storage site q = Keeps site q.0 × Sent parse site.system.nodes j f storage q.1

  send_removal-Step :
      (j : Job) (f : File) (u : ℕ) (req : RemoveFileReq) (site : SiteOf x tx NodeDb)
      → (req.uid ≡ j.uid) × (req.pid ≡ j.pid)
      → req.fid ≡ f.fid
      → ((v : ℕ) → OnNode parse site.system.nodes req.file_storage v → v ≡ u)
      → Step j f req.file_storage site (send_removal x flags tx parse u req site)
  unfolding send_removal
  send_removal-Step j f u req site h k to =
      let nm = site.system.nodes in
      let nm1 = (send_request u nm).0 in
      by_missing {A = ℕ}
        (λ (q : SiteOf x tx NodeDb × List Removal). Step j f req.file_storage site q)
        (send_request u nm).1
        (λ e. (
          record { jobs = refl; tasks = refl; nodes = send_request-SameNodes u nm },
          no_request
              (λ v o. sent_open u nm (subst (λ w. (node_at nm w).closed ≡ false) (to v o) o.5) e),
        ))
        (λ seq _. (
          record {
            jobs = refl;
            tasks = refl;
            nodes =
                then_same nm nm1 (end_request u seq nm1) (send_request-SameNodes u nm)
                  (end_request-SameNodes u seq nm1);
          },
          request u req h (k, refl) to,
        ))

  dispatch_removal-Step :
      (j : Job) (f : File) (detail : Option FileDetail) (req : DownloadReq)
      (site : SiteOf x tx NodeDb)
      → Step j f req.file_storage site (dispatch_removal x flags tx parse j f detail req site)
  unfolding dispatch_removal
  dispatch_removal-Step j f detail req site =
      let nm = site.system.nodes in
      let chosen = Default.dispatch_download parse nm req.file_storage site.system.scheduler in
      let site' = record site { system = record (site.system) { scheduler = chosen.0 } } in
      let P : SiteOf x tx NodeDb × List Removal → Type 0 = λ q. Step j f req.file_storage site q in
      let kept : Keeps site site' = record {
        jobs = refl;
        tasks = refl;
        nodes = (refl, λ q. refl);
      } in
      let on : (v : ℕ) → OnNode parse nm req.file_storage v → chosen.1 ≡ ok (some v) =
        λ v o. OnNode-dispatch_download parse nm req.file_storage site.system.scheduler v o in
      by_result P chosen.1 (λ e h. (kept, no_request (λ v o. not_err chosen.1 v e (on v o) h)))
        (λ node h.
          by_missing {A = ℕ} P node
            (λ e. (kept, no_request (λ v o. not_nil chosen.1 v (on v o) (h ∙ ap ok e))))
            (λ u e.
              let m : RemoveFileReq = record {
                uid = j.uid;
                pid = j.pid;
                fid = f.fid;
                file_storage = req.file_storage;
                file_detail = detail;
              } in
              let to : (v : ℕ) → OnNode parse nm req.file_storage v → v ≡ u =
                λ v o. ok_inj chosen.1 v u (on v o) (h ∙ ap ok e) in
              let (k, s) = send_removal-Step j f u m site' (refl, refl) refl to in
              (record { jobs = k.jobs; tasks = k.tasks; nodes = k.nodes }, s)))

  -- What is asked of a later state was asked of the earlier one, if it keeps it.
  Asked-earlier :
      (c : Caller) (j : Job) (site site' : SiteOf x tx NodeDb) (fs : List File) (ms : List Removal)
      → Keeps site site'
      → Asked c j site' fs ms
      → Asked c j site fs ms
  Asked-earlier c j site site' _ _ k no_files = no_files
  Asked-earlier c j site site' _ _ k (empty_file f fs ms e a) =
      empty_file f fs ms e (Asked-earlier c j site site' fs ms k a)
  Asked-earlier c j site site' _ _ k (full_file f fs ms ms' req full built s a) =
      full_file f fs ms ms' req full
        (subst
          (λ (jm : JobManager base.Db).
            build_task_download_req x flags c (whole_file f.fid) j.pid "" jm.db
            ≡ returns (some req))
          k.jobs built)
        (Sent-earlier parse site.system.nodes site'.system.nodes j f req.file_storage ms k.nodes s)
        (Asked-earlier c j site site' fs ms' k a)

  Keeps-then : (s1 s2 s3 : SiteOf x tx NodeDb) → Keeps s1 s2 → Keeps s2 s3 → Keeps s1 s3
  Keeps-then s1 s2 s3 h k = record {
    jobs = k.jobs ∙ h.jobs;
    tasks = k.tasks ∙ h.tasks;
    nodes = then_same s1.system.nodes s2.system.nodes s3.system.nodes h.nodes k.nodes;
  }

  -- The files from one on: the call returns.
  abbrev Frees :
      Caller
      → Job
      → List File
      → SiteOf x tx NodeDb
      → Outcome (SiteOf x tx NodeDb × List Removal)
      → Type 0
  Frees c j fs site r =
      (q : SiteOf x tx NodeDb × List Removal) × (r ≡ returns q)
      × Keeps site q.0
      × Asked c j site fs q.1

  free_file_then :
      (c : Caller) (j : Job) (f : File) (fs : List File) (site site1 : SiteOf x tx NodeDb)
      (ms : List Removal)
      → Keeps site site1
      → ((ms' : List Removal) → Asked c j site fs ms' → Asked c j site (f ∷ fs) (ms ++ ms'))
      → Frees c j fs site1 (free_files x flags tx parse c j fs site1)
      → Frees c j
          (f ∷ fs)
          site
          (and_then (free_files x flags tx parse c j fs site1) (λ r. returns (r.0, ms ++ r.1)))
  free_file_then c j f fs site site1 ms k add (q, e, kept, a) = (
    (q.0, ms ++ q.1),
    rw e refl,
    Keeps-then site site1 q.0 k kept,
    add q.1 (Asked-earlier c j site site1 fs q.1 k a),
  )

  free_files-Frees :
      (c : Caller) (j : Job) (fs : List File) (site : SiteOf x tx NodeDb)
      → All (Readable x flags c j site.jobs.db) fs
      → Frees c j fs site (free_files x flags tx parse c j fs site)
  unfolding free_files free_file
  free_files-Frees c j [] site h = ((site, []), refl, Keeps-self site, no_files)
  free_files-Frees c j (f ∷ fs) site ((detail, req, hd, hr), hs) = elim (ℕ_discrete f.size 0) [
    | yes zeros ↦ rw ((==_iff f.size 0).1 zeros) (
        free_file_then c j f fs site site [] (Keeps-self site)
          (λ ms' a. empty_file f fs ms' zeros a) (free_files-Frees c j fs site hs))
    | no full ↦
        let q = dispatch_removal x flags tx parse j f detail req site in
        let (k, s) = dispatch_removal-Step j f detail req site in
        rw (full_size f full, hd, hr)
          (free_file_then c j f fs site q.0 q.1 k (λ ms' a. full_file f fs q.1 ms' req full hr s a)
            (free_files-Frees c j fs q.0 (
              subst (λ (jm : JobManager base.Db). All (Readable x flags c j jm.db) fs) (sym k.jobs)
                hs)))
  ]

  -- If the details of the files of the package can be read, then to free its space ends. It marks the job as
  -- one whose files are removed, whatever was sent, and changes nothing else in the job manager or the
  -- task manager, nor which nodes are connected. For every file that is not empty one request is sent at
  -- most, with its id and storage: to the node that a storage of the scheme `file` names, if that node
  -- is connected and open; none is sent only if the storage names no such node.
  pub free_pkg_space-Asked :
      (c : Caller) (j : Job) (site : SiteOf x tx NodeDb)
      → All (Readable x flags c j site.jobs.db) (files_of (get_files x site.jobs.db j.pid))
      → (q : SiteOf x tx NodeDb × List Removal) × (free_pkg_space x flags tx parse c j site
          ≡ returns (mark_removed x flags tx parse j q.0, q.1))
        × Keeps site q.0
        × Asked c j site (files_of (get_files x site.jobs.db j.pid)) q.1
  unfolding free_pkg_space
  free_pkg_space-Asked c j site h =
      let (q, e, k, a) = free_files-Frees c j (files_of (get_files x site.jobs.db j.pid)) site h in
      (q, rw e refl, k, a)

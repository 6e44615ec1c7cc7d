-- ===== src/Jobs/Steps.antt =====
-- Each method of the job manager of job.go keeps the tracks in agreement.
use codemigrate.Prelude.{
  ℕ, String, List, [], ◌∷◌, ◌≡◌, refl, ◌∙◌, Option, none, some, Bool, false, arith, ◌==◌, nat_eq,
  string_eq, by_option, by_if, ◌||◌,
}
use codemigrate.Cydex.{TransferType, state_eq, done, pause}
use codemigrate.Errors.{Error, by_result}
use codemigrate.TaskTypes.{Task, TaskState}
use codemigrate.Models.{Job, JobDetail, File, SegRow, new_job}
use codemigrate.Models.Engine.{Engine, or_missing, get_job_row, delete_job, or_nil}
use codemigrate.Tracks.Consistency.{add_track_of_delete-IsConsistent}
use codemigrate.JobDetails.{update_job_detail}
use codemigrate.Jobs.{JobManager, hash_job, notify, store_job}
use codemigrate.Jobs.Cache.{get_job, get_job_detail}
use codemigrate.Jobs.Lifecycle.{
  Ending, returns, nil_panic, recreate_job, create_job, remove_job, wake_delayed, restart_details,
  insert_new_job, forget_job,
}
use codemigrate.Jobs.Handlers.{
  add_task, del_task, notify_detail, task_state_notify, store_detail, start_job, load_file,
  begin_detail, save_progress,
}
use codemigrate.Jobs.Agreement.{
  Agrees, get_job-Agrees, tracks-get_job, tracks-get_job_detail, del_track-Agrees,
  forget_job-Agrees, track_job-IsConsistent, process_job-Agrees,
}

-- A panic has no state left that could break a property.
abbrev pub EndsIn : {A : Type 0} → (A → Type 0) → Ending A → Type 0
EndsIn P (returns a) = P a
EndsIn P nil_panic = Unit

-- A call whose second result its caller drops.
abbrev pub dropped : {A B : Type 0} → Ending (A × B) → Ending A
dropped (returns r) = returns r.0
dropped nil_panic = nil_panic

module _ (x : Engine) where
  open x use {Db}

  pub recreate_job-Agrees :
      (now : ℕ) (uid pid : String) (typ : TransferType) (j : Job) (jm : JobManager Db)
      → Agrees x jm
      → EndsIn (Agrees x) (recreate_job x now uid pid typ j jm)
  unfolding recreate_job notify
  recreate_job-Agrees now uid pid typ j jm c =
      by_option {A = Db × List JobDetail} (EndsIn (Agrees x))
        (restart_details x now jm.db (or_nil (x.find_job_details jm.db j.job_id))) tt
        (λ r _. track_job-IsConsistent x r.0 uid pid typ jm.tracks c)

  pub create_job-Agrees :
      (now : ℕ) (uid pid : String) (typ : TransferType) (jm : JobManager Db)
      → Agrees x jm
      → EndsIn (λ r. Agrees x r.0) (create_job x now uid pid typ jm)
  unfolding create_job notify
  create_job-Agrees now uid pid typ jm c =
      let P : Ending (JobManager Db × Option Error) → Type 0 = EndsIn (λ r. Agrees x r.0) in
      by_option P (or_missing (get_job_row x jm.db (hash_job uid pid typ) false))
        (by_result P (insert_new_job x now (new_job (hash_job uid pid typ) uid pid typ) jm.db)
          (λ e _. c)
          (λ o _. by_option P o c (λ db _. track_job-IsConsistent x db uid pid typ jm.tracks c)))
        (λ j _.
          after_recreate (recreate_job x now uid pid typ j jm)
            (recreate_job-Agrees now uid pid typ j jm c))
    where
      after_recreate :
          (r : Ending (JobManager Db))
          → EndsIn (Agrees x) r
          → EndsIn
              (λ (q : JobManager Db × Option Error). Agrees x q.0)
              (elim r [ nil_panic ↦ nil_panic | returns jm' ↦ returns (jm', none) ])
      after_recreate (returns jm') c' = c'
      after_recreate nil_panic _ = tt

  pub remove_job-Agrees :
      (uid pid : String) (typ : TransferType) (jm : JobManager Db)
      → Agrees x jm
      → Agrees x (remove_job x uid pid typ jm).0
  unfolding remove_job
  remove_job-Agrees uid pid typ jm c =
      let P : JobManager Db × Option Error → Type 0 = λ r. Agrees x r.0 in
      let h = hash_job uid pid typ in
      by_option P (or_missing (get_job_row x jm.db h false)) c (λ j _.
        by_result P (delete_job x jm.db h) (λ e _. c)
          (λ db _.
            add_track_of_delete-IsConsistent _ uid pid typ
              (del_track-Agrees x uid pid typ (record jm { db = db }) c)))

  pub wake_delayed-Agrees : (jm : JobManager Db) → Agrees x jm → Agrees x (wake_delayed x jm)
  unfolding wake_delayed
  wake_delayed-Agrees jm c = wake_case jm.delayed
    where
      wake_case :
          (l : List (String × Job))
          → Agrees x
              (elim l [ [] ↦ jm | (h, j) ∷ js ↦ forget_job x h j (record jm { delayed = js }) ])
      wake_case [] = c
      wake_case ((h, j) ∷ js) = forget_job-Agrees x h j (record jm { delayed = js }) c

  pub tracks-store_detail :
      (h fid : String) (jd : JobDetail) (jm : JobManager Db)
      → (store_detail x h fid jd jm).tracks ≡ jm.tracks
  unfolding store_detail
  tracks-store_detail h fid jd jm = ground arith

  pub tracks-start_job :
      (h : String) (j : Job) (jm : JobManager Db) → (start_job x h j jm).tracks ≡ jm.tracks
  unfolding start_job notify store_job
  tracks-start_job h j jm = ground arith

  pub tracks-begin_detail :
      (now : ℕ) (t : Task) (f : File) (jd : JobDetail) (jm : JobManager Db)
      → (begin_detail x now t f jd jm).tracks ≡ jm.tracks
  unfolding begin_detail store_detail
  tracks-begin_detail now t f jd jm = ground arith

  pub tracks-del_task :
      (t : Option Task) (jm : JobManager Db) → (del_task x t jm).tracks ≡ jm.tracks
  unfolding del_task
  tracks-del_task none jm = refl
  tracks-del_task (some t) jm =
      let h = t.job_id in
      let jm1 = (get_job x h jm).0 in
      let P : JobManager Db → Type 0 = λ q. q.tracks ≡ jm.tracks in
      let p1 = tracks-get_job x h jm in
      let p2 = tracks-get_job_detail x h t.fid jm1 ∙ p1 in
      by_option {A = Job} P (get_job x h jm).1 p1 (λ j _.
        by_option {A = JobDetail} P (get_job_detail x h t.fid jm1).1 p2 (λ jd _.
          by_if P (state_eq jd.state t.state || state_eq jd.state done) (λ _. p2)
            (λ _.
              by_if P (state_eq t.state pause)
                (λ _. tracks-store_detail h t.fid _ (get_job_detail x h t.fid jm1).0 ∙ p2)
                (λ _. p2))))

  pub add_task-Agrees :
      (now : ℕ) (t : Task) (jm : JobManager Db)
      → Agrees x jm
      → EndsIn (Agrees x) (add_task x now t jm)
  unfolding add_task
  add_task-Agrees now t jm c =
      let h = t.job_id in
      let jm1 = (get_job x h jm).0 in
      let jm2 = (get_job_detail x h t.fid jm1).0 in
      let P : Ending (JobManager Db) → Type 0 = EndsIn (Agrees x) in
      let c1 = get_job-Agrees x h jm c in
      let c2 : Agrees x jm2 = rw (tracks-get_job_detail x h t.fid jm1) c1 in
      by_option {A = Job} P (get_job x h jm).1 c1 (λ j _.
        by_option {A = JobDetail} P (get_job_detail x h t.fid jm1).1 c2 (λ jd _.
          by_option {A = File} P (load_file x jm2.db jd).file tt (λ f _.
            rw (tracks-start_job h, tracks-begin_detail now t f (load_file x jm2.db jd) jm2) c2)))

  pub tracks-save_progress :
      (now : ℕ) (t : Task) (j : Job) (seg : Option SegRow) (jd : JobDetail) (b : Bool)
      (jm : JobManager Db)
      → (save_progress x now t j seg jd b jm).tracks ≡ jm.tracks
  unfolding save_progress store_detail store_job
  tracks-save_progress now t j seg jd b jm = ground arith

module _ (x : Engine) (get_total_bytes : TaskState → ℕ) where
  open x use {Db}

  pub notify_detail-Agrees :
      (now : ℕ) (t : Task) (s : TaskState) (j : Job) (jd : JobDetail) (jm : JobManager Db)
      → Agrees x jm
      → EndsIn (λ r. Agrees x r.0) (notify_detail x get_total_bytes now t s j jd jm)
  unfolding notify_detail
  notify_detail-Agrees now t s j jd0 jm c =
      let P : Ending (JobManager Db × TaskState) → Type 0 = EndsIn (λ r. Agrees x r.0) in
      let jd = load_file x jm.db jd0 in
      let seg = or_missing (x.find_seg jm.db s.sid) in
      let row = or_missing (x.find_file jm.db jd.fid) in
      by_option {A = JobDetail × TaskState × Bool} P
        (update_job_detail get_total_bytes now seg row jd s t.state) tt
        (λ r _.
          process_job-Agrees x t.job_id (save_progress x now t j seg r.0 r.2 jm)
            (rw (tracks-save_progress x now t j seg r.0 r.2 jm) c))

  pub task_state_notify-Agrees :
      (now : ℕ) (t : Option Task) (s : TaskState) (jm : JobManager Db)
      → Agrees x jm
      → EndsIn (λ r. Agrees x r.0) (task_state_notify x get_total_bytes now t s jm)
  unfolding task_state_notify
  task_state_notify-Agrees now none s jm c = c
  task_state_notify-Agrees now (some t) s jm c =
      let P : Ending (JobManager Db × TaskState) → Type 0 = EndsIn (λ r. Agrees x r.0) in
      let h = t.job_id in
      let jm1 = (get_job x h jm).0 in
      let c1 = get_job-Agrees x h jm c in
      let jm2 = (get_job_detail x h t.fid jm1).0 in
      let c2 : Agrees x jm2 = rw (tracks-get_job_detail x h t.fid jm1) c1 in
      by_if P (s.sid == "") (λ _. c)
        (λ _. by_option {A = Job} P (get_job x h jm).1 c1 (λ j _.
          by_option {A = JobDetail} P (get_job_detail x h t.fid jm1).1 c2
            (λ jd _. notify_detail-Agrees now t s j jd jm2 c2)))

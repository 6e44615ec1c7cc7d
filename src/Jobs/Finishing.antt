-- ===== src/Jobs/Finishing.antt =====
-- How the job manager of job.go finishes a cached job.
use codemigrate.Prelude.{
  ◌<◌, String, [], ◌∷◌, ◌++◌, map, ◌≡◌, refl, subst, sym, ◌∙◌, ap, Option, none, some, true, false,
  arith, if◌then◌else◌, string_eq,
}
use codemigrate.Prelude.GoMap.{get, get-put_self}
use codemigrate.Prelude.Int.{is_at_most_zero}
use codemigrate.Models.{Job}
use codemigrate.Models.Engine.{Engine}
use codemigrate.Jobs.{JobManager, on_job_finish, notify, store_job}
use codemigrate.Jobs.Cache.{get_job, is_job_finished}
use codemigrate.Jobs.Lifecycle.{process_job, finish_job, finish}

module _ (x : Engine) where
  open x use {Db}

  get_job_hit :
      (h : String) (j : Job) (jm : JobManager Db)
      → get jm.jobs h ≡ some j
      → get_job x h jm ≡ (jm, some j)
  unfolding get_job
  get_job_hit h j jm e = rw (e, get_job) refl

  is_job_finished_cached :
      (db : Db) (j : Job)
      → j.is_cached ≡ true
      → is_job_finished x db j ≡ is_at_most_zero j.num_unfinished_details
  unfolding is_job_finished
  is_job_finished_cached db j c = rw c refl

  process_job_hit :
      (h : String) (j : Job) (jm : JobManager Db)
      → get jm.jobs h ≡ some j
      → j.is_cached ≡ true
      → process_job x h jm
        ≡ (if is_at_most_zero j.num_unfinished_details then finish_job x h j jm else jm)
  unfolding process_job
  process_job_hit h j jm e c =
      ap
        (λ (r : JobManager Db × Option Job). elim r.1 [
          | none ↦ r.0
          | some k ↦ if is_job_finished x r.0.db k then finish_job x h k r.0 else r.0
        ])
        (get_job_hit h j jm e)
      ∙ ap (λ b. if b then finish_job x h j jm else jm) (is_job_finished_cached jm.db j c)

  process_job_finished :
      (h : String) (j : Job) (jm : JobManager Db)
      → get jm.jobs h ≡ some j
      → j.is_cached ≡ true
      → is_at_most_zero j.num_unfinished_details ≡ true
      → process_job x h jm ≡ finish_job x h j jm
  process_job_finished h j jm e c n =
      process_job_hit h j jm e c ∙ ap (λ b. if b then finish_job x h j jm else jm) n

  -- The manager after a finished job: it waits in the cache, marked, and its deletion is due once more.
  pub record IsFinishing (h : String) (j : Job) (jm jm' : JobManager Db) : Type 0 where
    pub kept : get jm'.jobs h ≡ some (finish j)
    pub due : jm'.delayed ≡ jm.delayed ++ (h, finish j) ∷ []
    pub told :
        jm'.job_observers ≡ map (λ calls. calls ++ on_job_finish (finish j) ∷ []) jm.job_observers
    pub still_tracked : jm'.tracks ≡ jm.tracks
    pub same_delay : jm'.del_job_delay ≡ jm.del_job_delay

  finish_job-IsFinishing :
      (h : String) (j : Job) (jm : JobManager Db)
      → get jm.jobs h ≡ some j
      → 0 < jm.del_job_delay
      → IsFinishing h j jm (finish_job x h j jm)
  unfolding finish_job notify store_job
  finish_job-IsFinishing h j jm e d = record {
    kept = ground (arith, e, get-put_self jm.jobs h (finish j));
    due = ground (arith, e);
    told = ground (arith, e);
    still_tracked = ground (arith, e);
    same_delay = ground (arith, e);
  }

  pub process_job-IsFinishing :
      (h : String) (j : Job) (jm : JobManager Db)
      → get jm.jobs h ≡ some j
      → j.is_cached ≡ true
      → is_at_most_zero j.num_unfinished_details ≡ true
      → 0 < jm.del_job_delay
      → IsFinishing h j jm (process_job x h jm)
  process_job-IsFinishing h j jm e c n d =
      rw (process_job_finished h j jm e c n) (finish_job-IsFinishing h j jm e d)

  pub process_job_open :
      (h : String) (j : Job) (jm : JobManager Db)
      → get jm.jobs h ≡ some j
      → j.is_cached ≡ true
      → is_at_most_zero j.num_unfinished_details ≡ false
      → process_job x h jm ≡ jm
  process_job_open h j jm e c n =
      process_job_hit h j jm e c ∙ ap (λ b. if b then finish_job x h j jm else jm) n

  -- When deletions are delayed: a cached job with details left is not touched by `ProcessJob`. With
  -- none left it is finished: it stays in the cache as done with one more finish, its deletion falls
  -- due, every observer is told, and the tracks stay until the deletion.
  pub process_job_cached :
      (h : String) (j : Job) (jm : JobManager Db)
      → get jm.jobs h ≡ some j
      → j.is_cached ≡ true
      → 0 < jm.del_job_delay
      → (is_at_most_zero j.num_unfinished_details ≡ false → process_job x h jm ≡ jm)
        × (is_at_most_zero j.num_unfinished_details ≡ true
            → IsFinishing h j jm (process_job x h jm))
  process_job_cached h j jm e c d =
      (λ n. process_job_open h j jm e c n, λ n. process_job-IsFinishing h j jm e c n d)

  -- When deletions are delayed, a cached job with no details left that `ProcessJob` has finished is
  -- finished again by the next `ProcessJob`: the job counts one more finish, a second deletion falls
  -- due and every observer is told again.
  pub process_job_again :
      (h : String) (j : Job) (jm : JobManager Db)
      → get jm.jobs h ≡ some j
      → j.is_cached ≡ true
      → is_at_most_zero j.num_unfinished_details ≡ true
      → 0 < jm.del_job_delay
      → IsFinishing h (finish j) (process_job x h jm) (process_job x h (process_job x h jm))
  process_job_again h j jm e c n d =
      let r = process_job-IsFinishing h j jm e c n d in
      process_job-IsFinishing h (finish j) (process_job x h jm) r.kept c n
        (subst (λ k. 0 < k) (sym r.same_delay) d)

-- ===== src/Notify/Once.antt =====
-- notify/notify.go: a job that is finished again.
use codemigrate.Prelude.{
  ◌<◌, ◌+◌, String, List, [], ◌∷◌, ◌++◌, map, string_eq, ◌≡◌, refl, ap, ◌∙◌, some, true, arith,
  by_if, not, ltb,
}
use codemigrate.Prelude.GoMap.{get}
use codemigrate.Prelude.Int.{is_at_most_zero}
use codemigrate.Models.{Job}
use codemigrate.Models.Engine.{Engine}
use codemigrate.Jobs.{JobManager, JobEvent, on_job_finish}
use codemigrate.Jobs.Lifecycle.{process_job, finish}
use codemigrate.Jobs.Finishing.{process_job_again}
use codemigrate.Notify.{NotifyManage, PkgEvent, observe, observe_all}

-- A second finish is not told.
observe_again : (m : NotifyManage) (j : Job) → observe m (on_job_finish (finish (finish j))) ≡ []
unfolding observe
observe_again m j =
    by_if (λ (l : List PkgEvent). l ≡ []) (not m.enable) (λ _. refl)
      (λ _.
        by_if (λ (l : List PkgEvent). l ≡ []) (ltb 1 (j.finished_times + 1 + 1)) (λ _. refl)
          (λ k. absurd (ground (arith, k))))

observe_all_silent :
    (m : NotifyManage) (es : List JobEvent) (e : JobEvent)
    → observe m e ≡ []
    → observe_all m (es ++ e ∷ []) ≡ observe_all m es
unfolding observe_all
observe_all_silent m [] e h = rw (h) refl
observe_all_silent m (k ∷ es) e h = ap (λ l. observe m k ++ l) (observe_all_silent m es e h)

silent_observers :
    (m : NotifyManage) (e : JobEvent) (l : List (List JobEvent))
    → observe m e ≡ []
    → map (observe_all m) (map (λ calls. calls ++ e ∷ []) l) ≡ map (observe_all m) l
silent_observers m e [] h = refl
silent_observers m e (es ∷ l) h = rw (observe_all_silent m es e h, silent_observers m e l h) refl

module _ (x : Engine) where
  -- When deletions are delayed and a cached job has no details left, a further call of ProcessJob, which
  -- finishes the job and tells the observers once more, makes no event for users.
  pub observe_all-process_job :
      (m : NotifyManage) (h : String) (j : Job) (jm : JobManager x.Db)
      → get jm.jobs h ≡ some j
      → j.is_cached ≡ true
      → is_at_most_zero j.num_unfinished_details ≡ true
      → 0 < jm.del_job_delay
      → map (observe_all m) (process_job x h (process_job x h jm)).job_observers
        ≡ map (observe_all m) (process_job x h jm).job_observers
  observe_all-process_job m h j jm e c n d =
      ap (map (observe_all m)) (process_job_again x h j jm e c n d).told
      ∙ silent_observers m (on_job_finish (finish (finish j))) (process_job x h jm).job_observers
          (observe_again m j)

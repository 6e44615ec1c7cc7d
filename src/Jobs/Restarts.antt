-- ===== src/Jobs/Restarts.antt =====
-- pkg/job.go: a job that starts again before its delayed deletion.
use codemigrate.Prelude.{
  ℕ, String, List, [], ◌∷◌, ◌≡◌, refl, subst, ap, ◌∙◌, Option, none, some, Bool, true, false, ◌&&◌,
  ◌==◌, nat_eq, string_eq, length, arith, by_if, by_option, ==_self,
}
use codemigrate.Prelude.GoMap.{get, delete}
use codemigrate.Cydex.{TransferType, upload, download}
use codemigrate.Models.{Job, JobDetail}
use codemigrate.Models.Engine.{Engine, or_nil}
use codemigrate.Tracks.{Tracks, Track, get_pkg_track, add_track, remove_track, keys}
use codemigrate.Tracks.Members.{same_side}
use codemigrate.Tracks.Consistency.{elem, get_pkg_track-add_track, get_pkg_track-remove_track}
use codemigrate.Jobs.{JobManager, hash_job, notify}
use codemigrate.Jobs.Cache.{get_job, is_open_job, del_uploaders, sweep_uploaders, del_track}
use codemigrate.Jobs.Steps.{EndsIn}
use codemigrate.Jobs.Agreement.{tracks-get_job}
use codemigrate.Jobs.Lifecycle.{
  returns, track_jobs, track_job, restart_details, recreate_job, forget_job, wake_delayed,
}

-- Does the package list the user as a downloader?
abbrev pub downloads : String → String → Tracks → Bool
downloads uid pid ts = elem uid (get_pkg_track ts pid download)

downloads-add_track :
    (uid pid u p : String) (typ : TransferType) (ts : Tracks)
    → downloads uid pid ts ≡ true
    → downloads uid pid (add_track ts u p typ) ≡ true
downloads-add_track uid pid u p typ ts h =
    get_pkg_track-add_track ts u p uid pid typ download
    ∙ by_if (λ b. b ≡ true) (p == pid && (same_side typ download && u == uid)) (λ _. refl) (λ _. h)

downloads-track_jobs :
    (uid pid : String) (js : List Job) (ts : Tracks)
    → downloads uid pid ts ≡ true
    → downloads uid pid (track_jobs js ts) ≡ true
downloads-track_jobs uid pid [] ts h = h
downloads-track_jobs uid pid (j ∷ js) ts h =
    downloads-track_jobs uid pid js _ (downloads-add_track uid pid j.uid j.pid j.typ ts h)

downloads-remove_track :
    (uid pid u p : String) (ts : Tracks)
    → downloads uid pid (remove_track ts u p upload) ≡ downloads uid pid ts
downloads-remove_track uid pid u p ts =
    get_pkg_track-remove_track ts u p uid pid upload download
    ∙ by_if (λ b. b ≡ downloads uid pid ts) (p == pid && false) (λ e. ground (arith, e)) (λ _. refl)

module _ (x : Engine) where
  open x use {Db}

  abbrev Same : String → String → JobManager Db → JobManager Db → Type 0
  Same uid pid jm m = downloads uid pid m.tracks ≡ downloads uid pid jm.tracks

  downloads-del_uploaders :
      (uid pid p : String) (uids : List String) (jm : JobManager Db)
      → Same uid pid jm (del_uploaders x p uids jm)
  unfolding del_uploaders
  downloads-del_uploaders uid pid p [] jm = refl
  downloads-del_uploaders uid pid p (u ∷ uids) jm =
      let jm' = (get_job x (hash_job u p upload) jm).0 in
      let same : Same uid pid jm jm' =
        ap (downloads uid pid) (tracks-get_job x (hash_job u p upload) jm) in
      let cut : JobManager Db = record jm' { tracks = remove_track jm'.tracks u p upload } in
      by_if (Same uid pid jm) (is_open_job x jm'.db (get_job x (hash_job u p upload) jm).1)
        (λ _. same)
        (λ _.
          downloads-del_uploaders uid pid p uids cut
          ∙ downloads-remove_track uid pid u p jm'.tracks
          ∙ same)

  downloads-sweep_uploaders :
      (uid pid p : String) (t : Option Track) (jm : JobManager Db)
      → Same uid pid jm (sweep_uploaders x p t jm)
  unfolding sweep_uploaders
  downloads-sweep_uploaders uid pid p none jm = refl
  downloads-sweep_uploaders uid pid p (some t) jm =
      by_if (Same uid pid jm) (length t.downloads == 0)
        (λ _. downloads-del_uploaders uid pid p (keys t.uploads) jm) (λ _. refl)

  downloads-del_track :
      (uid pid : String) (jm : JobManager Db)
      → downloads uid pid (del_track x uid pid download jm).tracks ≡ false
  unfolding del_track
  downloads-del_track uid pid jm =
      let jm' : JobManager Db = record jm { tracks = remove_track jm.tracks uid pid download } in
      downloads-sweep_uploaders uid pid pid (get jm'.tracks.track_pkgs pid) jm'
      ∙ get_pkg_track-remove_track jm.tracks uid pid uid pid download download
      ∙ ground (arith, ==_self pid, ==_self uid)

  abbrev gone : String → List (String × Job) → JobManager Db → JobManager Db
  gone h js jm = record jm { delayed = js; jobs = delete jm.jobs h }

  downloads-track_job :
      (db : Db) (uid pid : String) (ts : Tracks)
      → downloads uid pid (track_job x db uid pid download ts) ≡ true
  unfolding track_job
  downloads-track_job db uid pid ts =
      downloads-track_jobs uid pid (or_nil (x.find_jobs_by_pid db pid upload))
        (add_track ts uid pid download)
        (get_pkg_track-add_track ts uid pid uid pid download download
          ∙ ground (arith, ==_self pid, ==_self uid))

  abbrev Restarted : String → String → JobManager Db → JobManager Db → Type 0
  Restarted uid pid jm m = (downloads uid pid m.tracks ≡ true) × (m.delayed ≡ jm.delayed)

  downloads-recreate_job :
      (now : ℕ) (uid pid : String) (j : Job) (jm : JobManager Db)
      → EndsIn (Restarted uid pid jm) (recreate_job x now uid pid download j jm)
  unfolding recreate_job notify
  downloads-recreate_job now uid pid j jm =
      by_option {A = Db × List JobDetail} (EndsIn (Restarted uid pid jm))
        (restart_details x now jm.db (or_nil (x.find_job_details jm.db j.job_id))) tt
        (λ r _. (downloads-track_job r.0 uid pid jm.tracks, refl))

  wake_delayed_first :
      (h : String) (j : Job) (js : List (String × Job)) (jm : JobManager Db)
      → jm.delayed ≡ (h, j) ∷ js
      → wake_delayed x jm ≡ forget_job x h j (record jm { delayed = js })
  unfolding wake_delayed
  wake_delayed_first h j js jm e = rw (e, wake_delayed) refl

  downloads-wake_delayed :
      (h : String) (j : Job) (js : List (String × Job)) (jm : JobManager Db)
      → jm.delayed ≡ (h, j) ∷ js
      → j.typ ≡ download
      → downloads j.uid j.pid (wake_delayed x jm).tracks ≡ false
  unfolding forget_job
  downloads-wake_delayed h j js jm e d =
      ap (λ (m : JobManager Db). downloads j.uid j.pid m.tracks) (wake_delayed_first h j js jm e)
      ∙ ap (λ typ. downloads j.uid j.pid (del_track x j.uid j.pid typ (gone h js jm)).tracks) d
      ∙ downloads-del_track j.uid j.pid (gone h js jm)

  -- A download that starts again while the deletion of its finished run is due: the package lists the
  -- downloader from then on, and no longer once the old deletion has been carried out, although the new
  -- run has only begun.
  pub wake_delayed-recreate_job :
      (now : ℕ) (h : String) (old j : Job) (js : List (String × Job)) (jm jm' : JobManager Db)
      → jm.delayed ≡ (h, old) ∷ js
      → old.typ ≡ download
      → recreate_job x now old.uid old.pid download j jm ≡ returns jm'
      → (downloads old.uid old.pid jm'.tracks ≡ true)
        × (downloads old.uid old.pid (wake_delayed x jm').tracks ≡ false)
  wake_delayed-recreate_job now h old j js jm jm' e d r =
      let (listed, due) =
        subst (EndsIn (Restarted old.uid old.pid jm)) r
          (downloads-recreate_job now old.uid old.pid j jm) in
      (listed, downloads-wake_delayed h old js jm' (due ∙ e) d)

-- ===== src/Jobs/Agreement.antt =====
-- The tracks of users and packages stay in agreement whatever the job manager of job.go does.
use codemigrate.Prelude.{
  String, List, [], ◌∷◌, ◌≡◌, refl, ◌∙◌, Option, none, some, arith, length, ◌==◌, nat_eq, string_eq,
  ltb, Bool-cases, by_option, by_if, inl, inr,
}
use codemigrate.Prelude.GoMap.{get}
use codemigrate.Cydex.{TransferType, upload, is_download}
use codemigrate.Errors.{Result, ok, err}
use codemigrate.Models.{Job, JobDetail}
use codemigrate.Models.Engine.{Engine, or_nil, get_un_finished_jobs}
use codemigrate.Tracks.{Tracks, Track, no_tracks, keys, remove_track}
use codemigrate.Tracks.Consistency.{
  IsConsistent, add_track-IsConsistent, remove_track-IsConsistent, no_tracks-IsConsistent,
}
use codemigrate.Jobs.{JobManager, notify, store_job, hash_job}
use codemigrate.Jobs.Cache.{
  get_job, get_job_detail, load_detail, is_open_job, is_job_finished, del_uploaders, stays_tracked,
  sweep_uploaders, del_track,
}
use codemigrate.Jobs.Lifecycle.{
  track_jobs, track_job, process_job, finish, finish_job, forget_job, track_unfinished, load_tracks,
}

module _ (x : Engine) where
  open x use {Db}

  abbrev pub Agrees : JobManager Db → Type 0
  Agrees jm = IsConsistent jm.tracks

  pub tracks-get_job : (h : String) (jm : JobManager Db) → (get_job x h jm).0.tracks ≡ jm.tracks
  unfolding get_job
  tracks-get_job h jm = ground arith

  pub tracks-store_job :
      (h : String) (j : Job) (jm : JobManager Db) → (store_job h j jm).tracks ≡ jm.tracks
  unfolding store_job
  tracks-store_job h j jm = ground arith

  tracks-load_detail :
      (h fid : String) (j : Job) (jm : JobManager Db)
      → (load_detail x h fid j jm).0.tracks ≡ jm.tracks
  unfolding load_detail store_job
  tracks-load_detail h fid j jm = ground arith

  pub tracks-get_job_detail :
      (h fid : String) (jm : JobManager Db) → (get_job_detail x h fid jm).0.tracks ≡ jm.tracks
  unfolding get_job_detail
  tracks-get_job_detail h fid jm =
      by_option (λ (r : JobManager Db × Option JobDetail). r.0.tracks ≡ jm.tracks)
        (get_job x h jm).1 (tracks-get_job h jm)
        (λ j _. tracks-load_detail h fid j (get_job x h jm).0 ∙ tracks-get_job h jm)

  pub get_job-Agrees : (h : String) (jm : JobManager Db) → Agrees jm → Agrees (get_job x h jm).0
  get_job-Agrees h jm c = rw tracks-get_job c

  del_uploaders-Agrees :
      (pid : String) (uids : List String) (jm : JobManager Db)
      → Agrees jm
      → Agrees (del_uploaders x pid uids jm)
  unfolding del_uploaders
  del_uploaders-Agrees pid [] jm c = c
  del_uploaders-Agrees pid (uid ∷ uids) jm c =
      let c' = get_job-Agrees (hash_job uid pid upload) jm c in
      elim (Bool-cases (
        is_open_job x (get_job x (hash_job uid pid upload) jm).0.db
          (get_job x (hash_job uid pid upload) jm).1)) [
            | inl e ↦ rw e c'
            | inr e ↦
                rw e
                  (del_uploaders-Agrees pid uids _ (remove_track-IsConsistent _ uid pid upload c'))
          ]

  sweep_uploaders-Agrees :
      (pid : String) (t : Option Track) (jm : JobManager Db)
      → Agrees jm
      → Agrees (sweep_uploaders x pid t jm)
  unfolding sweep_uploaders
  sweep_uploaders-Agrees pid none jm c = c
  sweep_uploaders-Agrees pid (some t) jm c = elim (Bool-cases (length t.downloads == 0)) [
    | inl e ↦ rw e (del_uploaders-Agrees pid (keys t.uploads) jm c)
    | inr e ↦ rw e c
  ]

  pub del_track-Agrees :
      (uid pid : String) (typ : TransferType) (jm : JobManager Db)
      → Agrees jm
      → Agrees (del_track x uid pid typ jm)
  unfolding del_track
  del_track-Agrees uid pid typ jm c =
      let jm' : JobManager Db = record jm { tracks = remove_track jm.tracks uid pid typ } in
      let c' : Agrees jm' = remove_track-IsConsistent jm.tracks uid pid typ c in
      by_if Agrees (stays_tracked typ (get jm.tracks.track_pkgs pid)) (λ _. c)
        (λ _. sweep_uploaders-Agrees pid (get jm'.tracks.track_pkgs pid) jm' c')

  pub forget_job-Agrees :
      (h : String) (j : Job) (jm : JobManager Db) → Agrees jm → Agrees (forget_job x h j jm)
  unfolding forget_job
  forget_job-Agrees h j jm c = del_track-Agrees j.uid j.pid j.typ _ c

  track_jobs-IsConsistent :
      (js : List Job) (ts : Tracks) → IsConsistent ts → IsConsistent (track_jobs js ts)
  track_jobs-IsConsistent [] ts c = c
  track_jobs-IsConsistent (j ∷ js) ts c =
      track_jobs-IsConsistent js _ (add_track-IsConsistent ts j.uid j.pid j.typ c)

  pub track_job-IsConsistent :
      (db : Db) (uid pid : String) (typ : TransferType) (ts : Tracks)
      → IsConsistent ts
      → IsConsistent (track_job x db uid pid typ ts)
  unfolding track_job
  track_job-IsConsistent db uid pid typ ts c =
      let c' = add_track-IsConsistent ts uid pid typ c in
      by_if IsConsistent (is_download typ)
        (λ _. track_jobs-IsConsistent (or_nil (x.find_jobs_by_pid db pid upload)) _ c') (λ _. c')

  track_unfinished-IsConsistent :
      (db : Db) (js : List Job) (ts : Tracks)
      → IsConsistent ts
      → IsConsistent (track_unfinished x db js ts)
  track_unfinished-IsConsistent db [] ts c = c
  track_unfinished-IsConsistent db (j ∷ js) ts c =
      track_unfinished-IsConsistent db js _ (track_job-IsConsistent db j.uid j.pid j.typ ts c)

  pub load_tracks-Agrees : (jm : JobManager Db) → Agrees jm → Agrees (load_tracks x jm).0
  unfolding load_tracks
  load_tracks-Agrees jm c = load_tracks_case (get_un_finished_jobs x jm.db) refl
    where
      load_tracks_case :
          (r : Result (List Job)) → get_un_finished_jobs x jm.db ≡ r → Agrees (load_tracks x jm).0
      load_tracks_case (err e) p = rw (p, load_tracks) c
      load_tracks_case (ok js) p =
          rw (p, load_tracks)
            (track_unfinished-IsConsistent jm.db js no_tracks no_tracks-IsConsistent)

  finish_job-Agrees :
      (h : String) (j : Job) (jm : JobManager Db) → Agrees jm → Agrees (finish_job x h j jm)
  unfolding finish_job notify
  finish_job-Agrees h j jm c =
      let kept = store_job h (finish j) (record jm { db = x.save_job jm.db (finish j) }) in
      let c' : Agrees kept =
        rw (tracks-store_job h (finish j) (record jm { db = x.save_job jm.db (finish j) })) c in
      by_if (λ (q : JobManager Db). Agrees q) (ltb 0 jm.del_job_delay) (λ _. c')
        (λ _. forget_job-Agrees h (finish j) kept c')

  pub process_job-Agrees :
      (h : String) (jm : JobManager Db) → Agrees jm → Agrees (process_job x h jm)
  unfolding process_job
  process_job-Agrees h jm c =
      let c' = get_job-Agrees h jm c in
      by_option Agrees (get_job x h jm).1 c' (λ j _.
        by_if Agrees (is_job_finished x (get_job x h jm).0.db j) (λ _. finish_job-Agrees h j _ c')
          (λ _. c'))

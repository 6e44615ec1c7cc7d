-- ===== src/JobDetails/Progress.antt =====
-- What `updateJobDetail` of job.go guarantees of a file's progress.
use codemigrate.Prelude.{
  ℕ, ◌+◌, ◌≤◌, ◌≡◌, refl, ◌≢◌, ◌↔◌, ◌∙◌, Option, none, some, Bool, true, false, List, [], ◌∷◌,
  arith, nat_eq, if◌then◌else◌,
}
use codemigrate.Cydex.{TransferState, done, state_eq}
use codemigrate.Models.{File, SegRow, JobDetail}
use codemigrate.TaskTypes.{TaskState}
use codemigrate.JobDetails.{
  with_seg_size, at_most, finish_detail, add_finished_seg, note_progress, update_job_detail,
}

-- The counters of a detail stay within its file.
pub record IsWithin (f : File) (jd : JobDetail) : Type 0 where
  pub same_file : jd.file ≡ some f
  pub size_within : jd.finished_size ≤ f.size
  pub segs_within : jd.num_finished_segs ≤ f.num_segs

-- How many segments are counted after a notification.
abbrev pub counted : File → TransferState → ℕ → ℕ
counted f seg_state n = if state_eq seg_state done then at_most f.num_segs (n + 1) else n

-- What a notification leaves: counters within the file, and the detail done exactly when all
-- segments are counted.
pub record IsUpdate (f : File) (seg_state : TransferState) (jd jd' : JobDetail) : Type 0 where
  pub within : IsWithin f jd'
  pub counts : jd'.num_finished_segs ≡ counted f seg_state jd.num_finished_segs
  pub finishes : (jd'.num_finished_segs ≡ f.num_segs) → jd'.state ≡ done
  pub finished : (jd'.state ≡ done) → jd'.num_finished_segs ≡ f.num_segs

finish_detail-IsUpdate :
    (now : ℕ) (f : File) (seg_state : TransferState) (jd mid : JobDetail) (save : Bool)
    → mid.state ≢ done
    → IsWithin f mid
    → mid.num_finished_segs ≡ counted f seg_state jd.num_finished_segs
    → IsUpdate f seg_state jd (finish_detail now f mid save).0
unfolding finish_detail
finish_detail-IsUpdate now f seg_state jd mid save h w c = record {
  within = ground (arith, w.same_file);
  counts = ground arith;
  finishes = λ e. ground arith;
  finished = λ e. ground arith;
}

module _ (get_total_bytes : TaskState → ℕ) where
  abbrev pub update :
      ℕ
      → Option SegRow
      → Option File
      → JobDetail
      → TaskState
      → TransferState
      → Option (JobDetail × TaskState × Bool)
  update = update_job_detail get_total_bytes

  -- With its file loaded a detail takes every notification without a panic. The finished size and the
  -- count stay within the file, the count rises only by finished segments, and the detail is done
  -- afterwards exactly when all segments are counted.
  pub update_job_detail-IsUpdate :
      (now : ℕ) (seg : Option SegRow) (row : Option File) (f : File) (jd : JobDetail)
      (s : TaskState) (seg_state : TransferState)
      → IsWithin f jd
      → (jd' : JobDetail) × (s' : TaskState) × (save : Bool) × (update now seg row jd s seg_state
          ≡ some (jd', s', save))
        × IsUpdate f seg_state jd jd'
  unfolding update_job_detail
  update_job_detail-IsUpdate now seg row f jd s done w =
      let s' = with_seg_size seg s in
      let mid = add_finished_seg (get_total_bytes s') f (record jd { bitrate = s.bitrate }) in
      let r = finish_detail now f mid true in
      (
        r.0,
        s',
        r.1,
        rw w.same_file refl,
        finish_detail-IsUpdate now f done jd mid true (λ e. cc)
            (record { same_file = refl; size_within = ground arith; segs_within = ground arith })
            refl,
      )
  update_job_detail-IsUpdate now seg row f jd s seg_state w =
      let mid = note_progress s.total_bytes seg_state (record jd { bitrate = s.bitrate }) in
      let r = finish_detail now f mid false in
      (
        r.0,
        s,
        r.1,
        rw w.same_file refl,
        finish_detail-IsUpdate now f seg_state jd mid false (λ e. cc)
            (record {
              same_file = w.same_file;
              size_within = w.size_within;
              segs_within = w.segs_within;
            })
            refl,
      )

-- A notification as it arrives: when, the segment's row, the state and the task's state.
pub record Notification : Type 0 where
  pub arrival : ℕ
  pub seg : Option SegRow
  pub state : TaskState
  pub seg_state : TransferState

-- The finished segments that a list of notifications reports, repetitions included.
abbrev pub reports : List Notification → ℕ
reports [] = 0
reports (n ∷ ns) = (if state_eq n.seg_state done then 1 else 0) + reports ns

module _ (get_total_bytes : TaskState → ℕ) where
  abbrev pub then_updates :
      Option (JobDetail × TaskState × Bool) → (JobDetail → Option JobDetail) → Option JobDetail
  then_updates none k = none
  then_updates (some (jd, s, save)) k = k jd

  unfoldable pub updates : List Notification → JobDetail → Option JobDetail
  updates [] jd = some jd
  updates (n ∷ ns) jd =
      then_updates (update_job_detail get_total_bytes n.arrival n.seg none jd n.state n.seg_state)
        (updates ns)

  -- How a detail stands after a list of notifications.
  pub record IsFollowed (f : File) (jd : JobDetail) (ns : List Notification) : Type 0 where
    pub after : JobDetail
    pub returned : updates ns jd ≡ some after
    pub within : IsWithin f after
    pub counts : after.num_finished_segs ≡ at_most f.num_segs (jd.num_finished_segs + reports ns)
    pub done_iff : ns ≢ [] → (after.state ≡ done) ↔ (f.num_segs ≤ jd.num_finished_segs + reports ns)

  cons_updates :
      (n : Notification) (ns : List Notification) (f : File) (jd jd' : JobDetail)
      → updates (n ∷ ns) jd ≡ updates ns jd'
      → jd.num_finished_segs ≤ f.num_segs
      → IsUpdate f n.seg_state jd jd'
      → IsFollowed f jd' ns
      → IsFollowed f jd (n ∷ ns)
  unfolding updates
  cons_updates n [] f jd jd' e w u r = record {
    after = jd';
    returned = e;
    within = u.within;
    counts = ground (arith, u.counts);
    done_iff = λ h.
        (λ d. ground (arith, u.counts, u.finished d), λ l. u.finishes (ground (arith, u.counts)));
  }
  cons_updates n (m ∷ ns) f jd jd' e w u r = record {
    after = r.after;
    returned = e ∙ r.returned;
    within = r.within;
    counts = ground (arith, u.counts, r.counts);
    done_iff = λ h. (
      λ d. ground (arith, u.counts, (r.done_iff (λ q. cc)).0 d),
      λ l. (r.done_iff (λ q. cc)).1 (ground (arith, u.counts)),
    );
  }

  -- Of a file with its row loaded: whatever notifications arrive, none panics; the count is the one
  -- at the start and the reported segments together, up to the file's; and after at least
  -- one notification the detail is done exactly when the count at the start and the finished segments
  -- reported add up to the file's segments or more. Reports are counted, not segments: a segment that
  -- is reported twice counts twice.
  pub updates-IsFollowed :
      (ns : List Notification) (f : File) (jd : JobDetail) → IsWithin f jd → IsFollowed f jd ns
  unfolding updates
  updates-IsFollowed [] f jd w = record {
    after = jd;
    returned = refl;
    within = w;
    counts = ground arith;
    done_iff = λ h. absurd (h refl);
  }
  updates-IsFollowed (n ∷ ns) f jd w =
      let (jd', s', save, e, u) =
        update_job_detail-IsUpdate get_total_bytes n.arrival n.seg none f jd n.state n.seg_state
          w in
      cons_updates n ns f jd jd' (rw e refl) w.segs_within u (updates-IsFollowed ns f jd' u.within)

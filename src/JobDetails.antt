-- ===== src/JobDetails.antt =====
-- pkg/job.go: the progress of one file of a job, `updateJobDetail`.
pub mod Progress
use codemigrate.Prelude.{
  ℕ, ◌+◌, ◌%◌, ◌^◌, String, Option, none, some, Bool, true, false, ltb, ◌==◌, nat_eq, if◌then◌else◌,
}
use codemigrate.Cydex.{TransferState, idle, doing, pause, done}
use codemigrate.TaskTypes.{TaskState}
use codemigrate.Models.{File, SegRow, JobDetail}

-- A notification takes the size of a known segment from the database.
abbrev pub with_seg_size : Option SegRow → TaskState → TaskState
with_seg_size none s = s
with_seg_size (some seg) s = record s { real_total_bytes = seg.size }

-- `jd.GetFile()` leaves the field as it is if the query fails.
abbrev pub with_file : Option File → Option File → Option File
with_file none row = row
with_file (some f) row = some f

abbrev pub at_most : ℕ → ℕ → ℕ
at_most limit n = if ltb limit n then limit else n

-- The last test of `updateJobDetail`: is the detail finished?
unfoldable pub finish_detail : ℕ → File → JobDetail → Bool → JobDetail × Bool
finish_detail now f jd save =
    if jd.num_finished_segs == f.num_segs
    then (record jd { state = done; finish_time = now }, true)
    else (jd, save)

-- The branch of a finished segment. Sums of sizes are `uint64`.
unfoldable pub add_finished_seg : ℕ → File → JobDetail → JobDetail
add_finished_seg bytes f jd = record jd {
  file = some f;
  cur_seg_size = 0;
  finished_size = at_most f.size ((jd.finished_size + bytes) % 2 ^ 64);
  num_finished_segs = at_most f.num_segs (jd.num_finished_segs + 1);
  state = pause;
}

unfoldable pub note_progress : ℕ → TransferState → JobDetail → JobDetail
note_progress bytes seg_state jd = record jd { cur_seg_size = bytes; state = seg_state }

-- `TaskState.GetTotalBytes` belongs to another package.
module _ (get_total_bytes : TaskState → ℕ) where
  -- `row` is what the query for the file returns, `seg` the segment's row. The results are the
  -- detail, the notification and `save`; `none` is the panic of a nil `jd.File`.
  unfoldable pub update_job_detail :
      ℕ
      → Option SegRow
      → Option File
      → JobDetail
      → TaskState
      → TransferState
      → Option (JobDetail × TaskState × Bool)
  unfolding finish_detail add_finished_seg note_progress
  update_job_detail now seg row jd s done =
      let s' = with_seg_size seg s in
      let jd' = record jd { bitrate = s.bitrate } in
      elim (with_file jd.file row) [
        | none ↦ none
        | some f ↦
            let (r, save) =
              finish_detail now f (add_finished_seg (get_total_bytes s') f jd') true in
            some (r, s', save)
      ]
  update_job_detail now seg row jd s seg_state =
      let jd' = record jd { bitrate = s.bitrate } in
      elim jd.file [
        | none ↦ none
        | some f ↦
            let (r, save) = finish_detail now f (note_progress s.total_bytes seg_state jd') false in
            some (r, s, save)
      ]

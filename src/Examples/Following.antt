-- ===== src/Examples/Following.antt =====
-- The progress of one file and a few tracks.
use codemigrate.Prelude.{List, true, [], ◌∷◌, ◌≡◌, refl, none, some, arith, string_eq}
use codemigrate.Prelude.GoMap.{get, put}
use codemigrate.Cydex.{upload, download, done}
use codemigrate.Models.{File, JobDetail, new_job_detail}
use codemigrate.TaskTypes.{TaskState}
use codemigrate.JobDetails.Progress.{IsWithin, Notification, IsFollowed, updates-IsFollowed}
use codemigrate.Tracks.{Tracks, no_tracks, add_track, remove_track, get_pkg_track, get_user_track}
use codemigrate.Tracks.Relation.{TrackCall, add_call, remove_call, fetch_call, run, run_refines}
use codemigrate.Tracks.Consistency.{
  IsConsistent, no_tracks-IsConsistent, elem, add_track-IsConsistent,
}

-- A file of two segments.
abbrev pub two_segs : File
two_segs = record {
  fid = "f";
  pid = "p";
  name = "a";
  size = 10;
  mode = 0;
  num_segs = 2;
  storage = "";
  flag = 0;
}

abbrev started : JobDetail
started = record (new_job_detail "j" "f") { file = some two_segs }

started-IsWithin : IsWithin two_segs started
started-IsWithin = record { same_file = refl; size_within = omega arith; segs_within = omega arith }

abbrev segment_end : TaskState
segment_end = record {
  task_id = "t";
  sid = "s1";
  state = "end";
  bitrate = 5;
  total_bytes = 6;
  real_total_bytes = 6;
  total_traffic = 6;
}

abbrev ending : Notification
ending = record { arrival = 9; seg = none; state = segment_end; seg_state = done }

updates-IsFollowed_example : IsFollowed (λ s. s.total_bytes) two_segs started (ending ∷ ending ∷ [])
updates-IsFollowed_example =
    updates-IsFollowed (λ s. s.total_bytes) (ending ∷ ending ∷ []) two_segs started started-IsWithin

abbrev one_upload : Tracks
one_upload = add_track no_tracks "u" "p" upload

one_upload-IsConsistent : IsConsistent one_upload
one_upload-IsConsistent = add_track-IsConsistent no_tracks "u" "p" upload no_tracks-IsConsistent

get_pkg_track_test : get_pkg_track one_upload "p" upload ≡ "u" ∷ []
unfolding get_pkg_track add_track get put codemigrate.Tracks.mark codemigrate.Tracks.set_member
get_pkg_track_test = refl

abbrev history : List TrackCall
history =
    add_call "u" "p" upload
    ∷ add_call "v" "p" download
    ∷ fetch_call "u" upload true
    ∷ remove_call "u" "p" upload
    ∷ []

run_refines_example :
    (elem "v" (get_pkg_track (run history no_tracks) "p" download) ≡ true)
    × (elem "p" (get_user_track (run history no_tracks) "v" download) ≡ true)
run_refines_example = run_refines history "v" "p" download

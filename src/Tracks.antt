-- ===== src/Tracks.antt =====
-- pkg/job.go: the tracks of the job manager, which say for each user which packages it is sending
-- and receiving, and for each package by whom. A Go set `map[string]int` holds 1 at its members.
pub mod Members
pub mod Consistency
pub mod Relation
use codemigrate.Prelude.{
  ℕ, ◌+◌, String, List, [], ◌∷◌, ◌++◌, Option, none, some, Bool, true, false, ◌&&◌, length, ◌==◌,
  nat_eq, string_eq, if◌then◌else◌,
}
use codemigrate.Prelude.GoMap.{GoMap, get, put, delete}
use codemigrate.Cydex.{TransferType, upload, download, unknown, is_upload}

pub record Track : Type 0 where
  pub uploads : GoMap String ℕ
  pub downloads : GoMap String ℕ

abbrev pub new_track : Track
new_track = record { uploads = []; downloads = [] }

pub record Tracks : Type 0 where
  pub track_users : GoMap String Track
  pub track_pkgs : GoMap String Track
  pub track_deletes : GoMap String Track

abbrev pub no_tracks : Tracks
no_tracks = record { track_users = []; track_pkgs = []; track_deletes = [] }

-- The set of a track that a type of transfer goes to: uploads, and downloads for all else.
abbrev pub side : TransferType → Track → GoMap String ℕ
side typ t = if is_upload typ then t.uploads else t.downloads

unfoldable pub set_member : TransferType → String → Track → Track
set_member typ x t =
    if is_upload typ
    then record t { uploads = put t.uploads x 1 }
    else record t { downloads = put t.downloads x 1 }

unfoldable pub drop_member : TransferType → String → Track → Track
drop_member typ x t =
    if is_upload typ
    then record t { uploads = delete t.uploads x }
    else record t { downloads = delete t.downloads x }

abbrev pub is_void : Track → Bool
is_void t = length t.uploads == 0 && length t.downloads == 0

abbrev pub found_or_new : Option Track → Track
found_or_new none = new_track
found_or_new (some t) = t

-- Half of `AddTrack`: the track of a key, made if there is none, gets a member.
unfoldable pub mark : GoMap String Track → String → TransferType → String → GoMap String Track
mark m k typ x = put m k (set_member typ x (found_or_new (get m k)))

-- Half of `delTrack`: the track of a key loses a member, and goes if it is void then.
unfoldable pub unmark : GoMap String Track → String → TransferType → String → GoMap String Track
unmark m k typ x = elim (get m k) [
  | none ↦ m
  | some t ↦ let t' = drop_member typ x t in if is_void t' then delete m k else put m k t'
]

unfoldable pub add_track : Tracks → String → String → TransferType → Tracks
add_track ts uid pid typ = record ts {
  track_pkgs = mark ts.track_pkgs pid typ uid;
  track_users = mark ts.track_users uid typ pid;
}

-- `delTrack`.
unfoldable pub remove_track : Tracks → String → String → TransferType → Tracks
remove_track ts uid pid typ = record ts {
  track_pkgs = unmark ts.track_pkgs pid typ uid;
  track_users = unmark ts.track_users uid typ pid;
}

unfoldable pub add_track_of_delete : Tracks → String → String → TransferType → Tracks
add_track_of_delete ts uid pid typ = record ts { track_deletes = mark ts.track_deletes uid typ pid }

abbrev pub keys {ℓ} : {V : Type ℓ} → GoMap String V → List String
keys [] = []
keys ((k, v) ∷ m) = k ∷ keys m

-- The members of a side of a track, in the order of the iteration.
abbrev pub side_keys : TransferType → Option Track → List String
side_keys typ none = []
side_keys typ (some t) = keys (side typ t)

unfoldable pub get_pkg_track : Tracks → String → TransferType → List String
get_pkg_track ts pid typ = side_keys typ (get ts.track_pkgs pid)

unfoldable pub get_user_track : Tracks → String → TransferType → List String
get_user_track ts uid typ = side_keys typ (get ts.track_users uid)

abbrev pub clear_side : TransferType → Track → Track
clear_side typ t = if is_upload typ then record t { uploads = [] } else record t { downloads = [] }

-- `getTrackOfDelete`: with `remove` set the members that are returned are deleted one by one.
unfoldable pub get_track_of_delete : Tracks → String → TransferType → Bool → Tracks × List String
get_track_of_delete ts uid typ remove = elim (get ts.track_deletes uid) [
  | none ↦ (ts, [])
  | some t ↦
      let t' = if remove then clear_side typ t else t in
      (
        record ts {
          track_deletes =
              if is_void t' then delete ts.track_deletes uid else put ts.track_deletes uid t';
        },
        keys (side typ t),
      )
]

abbrev pub count_tracks : GoMap String Track → ℕ × ℕ
count_tracks [] = (0, 0)
count_tracks ((k, t) ∷ m) =
    let rest = count_tracks m in (length t.uploads + rest.0, length t.downloads + rest.1)

unfoldable pub get_un_finished_job_count : Tracks → ℕ × ℕ
get_un_finished_job_count ts = count_tracks ts.track_pkgs

unfoldable pub clear_tracks : Tracks → Tracks
clear_tracks ts = no_tracks

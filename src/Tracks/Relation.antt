-- ===== src/Tracks/Relation.antt =====
-- pkg/job.go: the tracks are two views of one relation between users and packages.
use codemigrate.Prelude.{
  String, List, [], ◌∷◌, ◌≡◌, refl, sym, ◌∙◌, Bool, true, false, ◌&&◌, ◌==◌, string_eq,
  if◌then◌else◌, by_option,
}
use codemigrate.Prelude.GoMap.{get}
use codemigrate.Cydex.{TransferType}
use codemigrate.Tracks.{
  Track, Tracks, no_tracks, add_track, remove_track, add_track_of_delete, get_track_of_delete,
  clear_tracks, get_pkg_track, get_user_track,
}
use codemigrate.Tracks.Members.{same_side}
use codemigrate.Tracks.Consistency.{
  IsConsistent, elem, no_tracks-IsConsistent, add_track-IsConsistent, remove_track-IsConsistent,
  add_track_of_delete-IsConsistent, get_track_of_delete-IsConsistent, get_pkg_track-get_user_track,
  get_pkg_track-add_track, get_pkg_track-remove_track,
}

-- The calls that the job manager makes of its tracks.
pub data TrackCall : Type 0 where
  add_call remove_call forget_call : (uid pid : String) → TransferType → TrackCall
  fetch_call : (uid : String) → TransferType → (remove : Bool) → TrackCall
  clear_call : TrackCall

unfoldable pub serve : TrackCall → Tracks → Tracks
serve (add_call uid pid typ) ts = add_track ts uid pid typ
serve (remove_call uid pid typ) ts = remove_track ts uid pid typ
serve (forget_call uid pid typ) ts = add_track_of_delete ts uid pid typ
serve (fetch_call uid typ remove) ts = (get_track_of_delete ts uid typ remove).0
serve clear_call ts = clear_tracks ts

unfoldable pub run : List TrackCall → Tracks → Tracks
run [] ts = ts
run (c ∷ cs) ts = run cs (serve c ts)

-- The abstract view: which users take part in which packages, on either side.
abbrev pub Takes : Type 0
Takes = String → String → TransferType → Bool

abbrev pub nobody : Takes
nobody u p s = false

abbrev pub with_pair : Bool → String → String → TransferType → Takes → Takes
with_pair b uid pid typ r u p s = if pid == p && (same_side typ s && uid == u) then b else r u p s

abbrev pub relate : TrackCall → Takes → Takes
relate (add_call uid pid typ) r = with_pair true uid pid typ r
relate (remove_call uid pid typ) r = with_pair false uid pid typ r
relate (forget_call uid pid typ) r = r
relate (fetch_call uid typ remove) r = r
relate clear_call r = nobody

abbrev pub relate_all : List TrackCall → Takes → Takes
relate_all [] r = r
relate_all (c ∷ cs) r = relate_all cs (relate c r)

-- The tracks stand for the relation.
record Stands (ts : Tracks) (r : Takes) : Type 0 where
  consistent : IsConsistent ts
  listed : (u p : String) (s : TransferType) → elem u (get_pkg_track ts p s) ≡ r u p s

no_tracks-Stands : Stands no_tracks nobody
unfolding get_pkg_track get
no_tracks-Stands = record { consistent = no_tracks-IsConsistent; listed = λ u p s. refl }

-- A fetch of what was deleted changes no other track.
fetch-Stands :
    (ts : Tracks) (r : Takes) (uid : String) (typ : TransferType) (remove : Bool)
    → Stands ts r
    → Stands (get_track_of_delete ts uid typ remove).0 r
unfolding get_track_of_delete get_pkg_track
fetch-Stands ts r uid typ remove h = record {
  consistent = get_track_of_delete-IsConsistent ts uid typ remove h.consistent;
  listed =
      by_option {A = Track}
        (λ (q : Tracks × List String).
          (u p : String) (s : TransferType) → elem u (get_pkg_track q.0 p s) ≡ r u p s)
        (get ts.track_deletes uid) h.listed (λ t _. h.listed);
}

with_pair_listed :
    (b : Bool) (ts : Tracks) (r : Takes) (uid pid u p : String) (typ s : TransferType)
    → elem u (get_pkg_track ts p s) ≡ r u p s
    → (if pid == p && (same_side typ s && uid == u) then b else elem u (get_pkg_track ts p s))
      ≡ with_pair b uid pid typ r u p s
with_pair_listed b ts r uid pid u p typ s e i =
    if pid == p && (same_side typ s && uid == u) then b else e i

serve-Stands :
    (c : TrackCall) (ts : Tracks) (r : Takes) → Stands ts r → Stands (serve c ts) (relate c r)
unfolding serve clear_tracks
serve-Stands (add_call uid pid typ) ts r h = record {
  consistent = add_track-IsConsistent ts uid pid typ h.consistent;
  listed = λ u p s.
      get_pkg_track-add_track ts uid pid u p typ s
      ∙ with_pair_listed true ts r uid pid u p typ s (h.listed u p s);
}
serve-Stands (remove_call uid pid typ) ts r h = record {
  consistent = remove_track-IsConsistent ts uid pid typ h.consistent;
  listed = λ u p s.
      get_pkg_track-remove_track ts uid pid u p typ s
      ∙ with_pair_listed false ts r uid pid u p typ s (h.listed u p s);
}
serve-Stands (forget_call uid pid typ) ts r h = record {
  consistent = add_track_of_delete-IsConsistent ts uid pid typ h.consistent;
  listed = unfold add_track_of_delete get_pkg_track in h.listed;
}
serve-Stands (fetch_call uid typ remove) ts r h = fetch-Stands ts r uid typ remove h
serve-Stands clear_call ts r h = no_tracks-Stands

run-Stands :
    (cs : List TrackCall) (ts : Tracks) (r : Takes)
    → Stands ts r
    → Stands (run cs ts) (relate_all cs r)
unfolding run
run-Stands [] ts r h = h
run-Stands (c ∷ cs) ts r h = run-Stands cs (serve c ts) (relate c r) (serve-Stands c ts r h)

-- From no tracks on, whatever tracks are added, removed, noted as deleted, fetched or cleared: a package
-- lists a user, and a user lists a package, exactly if the pair was added on that side after it was last
-- removed or the tracks were last cleared.
pub run_refines :
    (cs : List TrackCall) (u p : String) (s : TransferType)
    → (elem u (get_pkg_track (run cs no_tracks) p s) ≡ relate_all cs nobody u p s)
      × (elem p (get_user_track (run cs no_tracks) u s) ≡ relate_all cs nobody u p s)
run_refines cs u p s =
    let h = run-Stands cs no_tracks nobody no_tracks-Stands in
    (
      h.listed u p s,
      sym (get_pkg_track-get_user_track (run cs no_tracks) u p s h.consistent) ∙ h.listed u p s,
    )

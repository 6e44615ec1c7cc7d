-- ===== src/Tracks/Consistency.antt =====
-- The tracks of users and the tracks of packages of job.go agree, and none of them is void.
use codemigrate.Prelude.{
  ℕ, ◌<◌, String, List, ◌≡◌, refl, sym, ◌∙◌, ap, [], ◌∷◌, Option, none, some, Bool, true, false,
  ◌&&◌, ◌||◌, arith, length, ◌==◌, nat_eq, string_eq, if◌then◌else◌, Option-cases, by_option, inl,
  inr,
}
use codemigrate.Prelude.GoMap.{GoMap, get, put, get-put, get-delete}
use codemigrate.Cydex.{TransferType}
use codemigrate.Tracks.{
  Track, Tracks, no_tracks, side, set_member, drop_member, is_void, found_or_new, mark, unmark,
  add_track, remove_track, add_track_of_delete, get_track_of_delete, keys, side_keys, get_pkg_track,
  get_user_track,
}
use codemigrate.Tracks.Members.{has, has-mark, has-unmark, same_side, is_some, in_track}

-- No track of the map is void.
abbrev pub AllLive : GoMap String Track → Type 0
AllLive m = (k : String) (t : Track) → get m k ≡ some t → is_void t ≡ false

pub record IsConsistent (ts : Tracks) : Type 0 where
  pub agree :
      (uid pid : String) (s : TransferType)
      → has ts.track_pkgs pid s uid ≡ has ts.track_users uid s pid
  pub pkgs_live : AllLive ts.track_pkgs
  pub users_live : AllLive ts.track_users

length-put : (m : GoMap String ℕ) (k : String) (v : ℕ) → 0 < length (put m k v)
unfolding put
length-put [] k v = omega arith
length-put ((j, w) ∷ m) k v = ground (arith, length-put m k v)

set_member_live :
    (typ : TransferType) (x : String) (t : Track) → is_void (set_member typ x t) ≡ false
unfolding set_member
set_member_live typ x t = ground (arith, length-put t.uploads x 1, length-put t.downloads x 1)

mark-AllLive :
    (m : GoMap String Track) (k : String) (typ : TransferType) (x : String)
    → AllLive m
    → AllLive (mark m k typ x)
unfolding mark
mark-AllLive m k typ x h j t e = ground (
  arith,
  get-put m k (set_member typ x (found_or_new (get m k))) j,
  set_member_live typ x (found_or_new (get m k)),
  h j t,
)

unmark-AllLive :
    (m : GoMap String Track) (k : String) (typ : TransferType) (x : String)
    → AllLive m
    → AllLive (unmark m k typ x)
unfolding unmark
unmark-AllLive m k typ x h j t e = elim (Option-cases (get m k)) [
  | inl p ↦ h j t (rw (p, unmark) at e)
  | inr (u, p) ↦
      let e' = rw (p, unmark) at e in
      ground (arith, get-put m k (drop_member typ x u) j, get-delete m k j, h j t, e')
]

-- Adding a track keeps the tracks of users and packages in agreement, and none of them void.
pub add_track-IsConsistent :
    (ts : Tracks) (uid pid : String) (typ : TransferType)
    → IsConsistent ts
    → IsConsistent (add_track ts uid pid typ)
unfolding add_track
add_track-IsConsistent ts uid pid typ c = record {
  agree = λ u p s. ground (
    arith,
    has-mark ts.track_pkgs pid typ uid p s u,
    has-mark ts.track_users uid typ pid u s p,
    c.agree u p s,
  );
  pkgs_live = mark-AllLive ts.track_pkgs pid typ uid c.pkgs_live;
  users_live = mark-AllLive ts.track_users uid typ pid c.users_live;
}

-- Removing a track keeps the tracks of users and packages in agreement, and none of them void.
pub remove_track-IsConsistent :
    (ts : Tracks) (uid pid : String) (typ : TransferType)
    → IsConsistent ts
    → IsConsistent (remove_track ts uid pid typ)
unfolding remove_track
remove_track-IsConsistent ts uid pid typ c = record {
  agree = λ u p s. ground (
    arith,
    has-unmark ts.track_pkgs pid typ uid p s u,
    has-unmark ts.track_users uid typ pid u s p,
    c.agree u p s,
  );
  pkgs_live = unmark-AllLive ts.track_pkgs pid typ uid c.pkgs_live;
  users_live = unmark-AllLive ts.track_users uid typ pid c.users_live;
}

pub no_tracks-IsConsistent : IsConsistent no_tracks
unfolding has get
no_tracks-IsConsistent = record {
  agree = λ u p s. refl;
  pkgs_live = λ k t e. cc;
  users_live = λ k t e. cc;
}

pub add_track_of_delete-IsConsistent :
    (ts : Tracks) (uid pid : String) (typ : TransferType)
    → IsConsistent ts
    → IsConsistent (add_track_of_delete ts uid pid typ)
unfolding add_track_of_delete
add_track_of_delete-IsConsistent ts uid pid typ c = record {
  agree = c.agree;
  pkgs_live = c.pkgs_live;
  users_live = c.users_live;
}

pub get_track_of_delete-IsConsistent :
    (ts : Tracks) (uid : String) (typ : TransferType) (remove : Bool)
    → IsConsistent ts
    → IsConsistent (get_track_of_delete ts uid typ remove).0
unfolding get_track_of_delete
get_track_of_delete-IsConsistent ts uid typ remove c =
    by_option {A = Track} (λ (q : Tracks × List String). IsConsistent q.0)
      (get ts.track_deletes uid) c
      (λ t _. record { agree = c.agree; pkgs_live = c.pkgs_live; users_live = c.users_live })

abbrev pub elem : String → List String → Bool
elem x [] = false
elem x (y ∷ l) = y == x || elem x l

elem-keys : (m : GoMap String ℕ) (x : String) → elem x (keys m) ≡ is_some (get m x)
unfolding get
elem-keys [] x = refl
elem-keys ((k, v) ∷ m) x = ground (arith, elem-keys m x)

elem-side_keys :
    (typ : TransferType) (x : String) (o : Option Track)
    → elem x (side_keys typ o) ≡ in_track typ x o
elem-side_keys typ x none = refl
elem-side_keys typ x (some t) = elem-keys (side typ t) x

-- On consistent tracks the two queries agree: a package lists a user exactly when the user lists the
-- package, in each direction.
pub get_pkg_track-get_user_track :
    (ts : Tracks) (uid pid : String) (typ : TransferType)
    → IsConsistent ts
    → elem uid (get_pkg_track ts pid typ) ≡ elem pid (get_user_track ts uid typ)
unfolding get_pkg_track get_user_track has
get_pkg_track-get_user_track ts uid pid typ c =
    elem-side_keys typ uid (get ts.track_pkgs pid)
    ∙ c.agree uid pid typ
    ∙ sym (elem-side_keys typ pid (get ts.track_users uid))

-- After `AddTrack` the package lists the user on that side, and every other entry is what it was.
pub get_pkg_track-add_track :
    (ts : Tracks) (uid pid u p : String) (typ s : TransferType)
    → elem u (get_pkg_track (add_track ts uid pid typ) p s)
      ≡ (if pid == p && (same_side typ s && uid == u) then true else elem u (get_pkg_track ts p s))
unfolding get_pkg_track add_track has
get_pkg_track-add_track ts uid pid u p typ s =
    elem-side_keys s u (get (mark ts.track_pkgs pid typ uid) p)
    ∙ has-mark ts.track_pkgs pid typ uid p s u
    ∙ ap (λ b. if pid == p && (same_side typ s && uid == u) then true else b)
        (sym (elem-side_keys s u (get ts.track_pkgs p)))

-- After `delTrack` the package does not list the user on that side, and every other entry is what it
-- was.
pub get_pkg_track-remove_track :
    (ts : Tracks) (uid pid u p : String) (typ s : TransferType)
    → elem u (get_pkg_track (remove_track ts uid pid typ) p s)
      ≡ (if pid == p && (same_side typ s && uid == u) then false else elem u (get_pkg_track ts p s))
unfolding get_pkg_track remove_track has
get_pkg_track-remove_track ts uid pid u p typ s =
    elem-side_keys s u (get (unmark ts.track_pkgs pid typ uid) p)
    ∙ has-unmark ts.track_pkgs pid typ uid p s u
    ∙ ap (λ b. if pid == p && (same_side typ s && uid == u) then false else b)
        (sym (elem-side_keys s u (get ts.track_pkgs p)))

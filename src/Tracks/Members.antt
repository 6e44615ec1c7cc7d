-- ===== src/Tracks/Members.antt =====
-- Who is in a track: the effect of the two halves of `AddTrack` and `delTrack` of job.go.
use codemigrate.Prelude.{
  ℕ, String, ◌≡◌, refl, [], ◌∷◌, Option, none, some, Bool, true, false, ◌&&◌, arith, length, ◌==◌,
  nat_eq, string_eq, ==_iff, if◌then◌else◌, Option-cases, inl, inr,
}
use codemigrate.Prelude.GoMap.{GoMap, get, get-put, get-delete}
use codemigrate.Cydex.{TransferType, is_upload}
use codemigrate.Tracks.{
  Track, side, set_member, drop_member, is_void, new_track, found_or_new, mark, unmark,
}

abbrev pub same_side : TransferType → TransferType → Bool
same_side a b = if is_upload a then is_upload b else (if is_upload b then false else true)

abbrev pub is_some {ℓ} : {V : Type ℓ} → Option V → Bool
is_some none = false
is_some (some v) = true

-- Whether a side of a track, or of no track, has a member.
abbrev pub in_track : TransferType → String → Option Track → Bool
in_track typ x none = false
in_track typ x (some t) = is_some (get (side typ t) x)

-- Whether the track of a key has a member.
unfoldable pub has : GoMap String Track → String → TransferType → String → Bool
has m k typ x = in_track typ x (get m k)

in_track-set_member :
    (typ s : TransferType) (x y : String) (t : Track)
    → in_track s y (some (set_member typ x t))
      ≡ (if same_side typ s && x == y then true else in_track s y (some t))
unfolding set_member
in_track-set_member typ s x y t = ground (arith, get-put t.uploads x 1 y, get-put t.downloads x 1 y)

in_track-drop_member :
    (typ s : TransferType) (x y : String) (t : Track)
    → in_track s y (some (drop_member typ x t))
      ≡ (if same_side typ s && x == y then false else in_track s y (some t))
unfolding drop_member
in_track-drop_member typ s x y t =
    ground (arith, get-delete t.uploads x y, get-delete t.downloads x y)

get_of_empty : (m : GoMap String ℕ) (y : String) → length m ≡ 0 → get m y ≡ none
unfolding get
get_of_empty [] y h = refl
get_of_empty (e ∷ m) y h = absurd (omega arith)

in_track_void :
    (s : TransferType) (y : String) (t : Track) → is_void t ≡ true → in_track s y (some t) ≡ false
unfolding get
in_track_void s y t h = ground (arith, get_of_empty t.uploads y, get_of_empty t.downloads y)

in_new : (s : TransferType) (y : String) → in_track s y (some new_track) ≡ false
unfolding get
in_new s y = ground arith

pub has-mark :
    (m : GoMap String Track) (k : String) (typ : TransferType) (x j : String) (s : TransferType)
    (y : String)
    → has (mark m k typ x) j s y
      ≡ (if k == j && (same_side typ s && x == y) then true else has m j s y)
unfolding has mark
has-mark m k typ x j s y = ground (
  arith,
  get-put m k (set_member typ x (found_or_new (get m k))) j,
  in_track-set_member typ s x y (found_or_new (get m k)),
  ==_iff k j,
  in_new s y,
)

pub has-unmark :
    (m : GoMap String Track) (k : String) (typ : TransferType) (x j : String) (s : TransferType)
    (y : String)
    → has (unmark m k typ x) j s y
      ≡ (if k == j && (same_side typ s && x == y) then false else has m j s y)
unfolding has unmark
has-unmark m k typ x j s y = elim (Option-cases (get m k)) [
  | inl e ↦ rw (e, unmark) (ground (arith, e, ==_iff k j))
  | inr (t, e) ↦
      rw (e, unmark)
        (ground (
          arith,
          get-put m k (drop_member typ x t) j,
          get-delete m k j,
          in_track-drop_member typ s x y t,
          in_track_void s y (drop_member typ x t),
          e,
          ==_iff k j,
        ))
]

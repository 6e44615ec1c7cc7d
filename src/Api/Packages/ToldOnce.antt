-- ===== src/Api/Packages/ToldOnce.antt =====
-- api/controllers/pkg.go and pkg/job.go: a deletion is told once.
use codemigrate.Prelude.{
  ℕ, string_eq, nat_eq, length, String, List, [], ◌∷◌, ◌≡◌, refl, ap, sym, ◌∙◌, Bool, true, false,
  arith, by_if, Option-cases, Bool-cases, inl, inr, if◌then◌else◌, ◌⊎◌, subst,
}
use codemigrate.Prelude.GoMap.{GoMap, get, put, delete, get-put_self, get-delete_self}
use codemigrate.Cydex.{TransferType, upload, download, is_upload}
use codemigrate.Jobs.{JobManager}
use codemigrate.Jobs.Queries.{get_jobs_by_uid}
use codemigrate.Api.{UserLevel, is_admin, fine, inner_server, ApiEngine}
use codemigrate.Api.Packages.Active.{
  ActivePkg, QueryActivePkgRsp, active_uploads, active_downloads, end_active, show_downloads,
  get_active,
}
use codemigrate.Api.Packages.Caching.{caches_then}
use codemigrate.Api.Packages.ActiveCaches.{
  get_jobs_by_uid-OnlyCaches, active_uploads-OnlyCaches, active_downloads-OnlyCaches,
}
use codemigrate.Tracks.{
  Track, Tracks, keys, side, side_keys, clear_side, is_void, get_track_of_delete,
}

-- The deletions that a user is still to be told of.
abbrev untold : TransferType → String → Tracks → List String
untold typ uid ts = side_keys typ (get ts.track_deletes uid)

told-untold :
    (ts : Tracks) (uid : String) (typ : TransferType) (remove : Bool)
    → (get_track_of_delete ts uid typ remove).1 ≡ untold typ uid ts
unfolding get_track_of_delete
told-untold ts uid typ remove = elim (Option-cases (get ts.track_deletes uid)) [
  | inl e ↦ rw (e, get_track_of_delete) refl
  | inr (t, e) ↦ rw (e, get_track_of_delete) refl
]

keys_void : {V : Type 0} (m : GoMap String V) → length m ≡ 0 → keys m ≡ []
keys_void [] h = refl
keys_void (e ∷ m) h = absurd (ground (arith, h))

side_void : (typ : TransferType) (t : Track) → is_void t ≡ true → keys (side typ t) ≡ []
side_void typ t h =
    by_if (λ (m : GoMap String ℕ). keys m ≡ []) (is_upload typ)
      (λ _. keys_void t.uploads (ground (arith, h)))
      (λ _. keys_void t.downloads (ground (arith, h)))

-- A track that is stored for a user, or deleted if it is void.
stored_side :
    (m : GoMap String Track) (uid : String) (typ : TransferType) (t : Track)
    → side_keys typ (get (if is_void t then delete m uid else put m uid t) uid) ≡ keys (side typ t)
stored_side m uid typ t =
    by_if (λ (m' : GoMap String Track). side_keys typ (get m' uid) ≡ keys (side typ t)) (is_void t)
      (λ v. ap (side_keys typ) (get-delete_self m uid) ∙ sym (side_void typ t v))
      (λ _. ap (side_keys typ) (get-put_self m uid t))

clear_own : (typ : TransferType) (t : Track) → keys (side typ (clear_side typ t)) ≡ []
clear_own typ t = elim (Bool-cases (is_upload typ)) [ inl e ↦ rw e refl | inr e ↦ rw e refl ]

clear_other :
    (typ typ' : TransferType) (t : Track)
    → keys (side typ' t) ≡ []
    → keys (side typ' (clear_side typ t)) ≡ []
clear_other typ typ' t h = ground (arith, h)

untold_cleared :
    (ts : Tracks) (uid : String) (typ : TransferType)
    → untold typ uid (get_track_of_delete ts uid typ true).0 ≡ []
unfolding get_track_of_delete
untold_cleared ts uid typ = elim (Option-cases (get ts.track_deletes uid)) [
  | inl e ↦ rw (e, get_track_of_delete) (ap (side_keys typ) e)
  | inr (t, e) ↦
      rw (e, get_track_of_delete)
        (stored_side ts.track_deletes uid typ (clear_side typ t) ∙ clear_own typ t)
]

untold_kept :
    (ts : Tracks) (uid : String) (typ typ' : TransferType)
    → untold typ' uid ts ≡ []
    → untold typ' uid (get_track_of_delete ts uid typ true).0 ≡ []
unfolding get_track_of_delete
untold_kept ts uid typ typ' h = elim (Option-cases (get ts.track_deletes uid)) [
  | inl e ↦ rw (e, get_track_of_delete) h
  | inr (t, e) ↦
      rw (e, get_track_of_delete)
        (stored_side ts.track_deletes uid typ' (clear_side typ t)
          ∙ clear_other typ typ' t (sym (ap (side_keys typ') e) ∙ h))
]

untold_other :
    (ts : Tracks) (uid : String)
    → untold download uid (get_track_of_delete ts uid upload true).0 ≡ untold download uid ts
unfolding get_track_of_delete
untold_other ts uid = elim (Option-cases (get ts.track_deletes uid)) [
  | inl e ↦ rw (e, get_track_of_delete) (ap (side_keys download) e)
  | inr (t, e) ↦
      rw (e, get_track_of_delete) (stored_side ts.track_deletes uid download (clear_side upload t))
]

-- An answer with an error tells of no deletion and forgets none; one without tells of all, and none is left.
abbrev pub Tells : {Db : Type 0} → String → Tracks → JobManager Db × QueryActivePkgRsp → Type 0
Tells uid ts q =
    ((q.1.error ≡ inner_server)
      × (q.0.tracks ≡ ts)
      × (q.1.del_sender_pkgs ≡ [])
      × (q.1.del_receiver_pkgs ≡ []))
    ⊎ ((q.1.error ≡ fine)
        × (q.1.del_sender_pkgs ≡ untold upload uid ts)
        × (q.1.del_receiver_pkgs ≡ untold download uid ts)
        × (untold upload uid q.0.tracks ≡ [])
        × (untold download uid q.0.tracks ≡ []))

module _ (x : ApiEngine) where
  open x use {base}

  end_active-Tells :
      (uid : String) (ups downs : List ActivePkg) (jm : JobManager base.Db)
      → Tells uid jm.tracks (end_active x uid ups downs jm)
  unfolding end_active
  end_active-Tells uid ups downs jm =
      let ts1 = (get_track_of_delete jm.tracks uid upload true).0 in
      inr (
        refl,
        told-untold jm.tracks uid upload true,
        told-untold ts1 uid download true ∙ untold_other jm.tracks uid,
        untold_kept ts1 uid download upload (untold_cleared jm.tracks uid upload),
        untold_cleared ts1 uid download,
      )

  show_downloads-Tells :
      (uid : String) (ups : List ActivePkg) (jm : JobManager base.Db)
      → Tells uid jm.tracks (show_downloads x uid ups jm)
  unfolding show_downloads
  show_downloads-Tells uid ups jm =
      let r = get_jobs_by_uid base uid download jm in
      let d = active_downloads x r.1 r.0 in
      let same : d.0.tracks ≡ jm.tracks =
        ap (λ m. m.tracks)
          (caches_then jm r.0 d.0 (get_jobs_by_uid-OnlyCaches base uid download jm)
            (active_downloads-OnlyCaches x r.1 r.0)) in
      by_if (Tells uid jm.tracks) d.1
        (λ _.
          subst (λ ts. Tells uid ts (end_active x uid ups d.2 d.0)) same
            (end_active-Tells uid ups d.2 d.0))
        (λ _. inl (refl, same, refl, refl))

  -- What `getActive` answers to a user who is not an administrator: with an error the deletions that the
  -- user is still to be told of stay in the tracks and none is named; without one exactly these are named,
  -- those of packages the user sent and those of packages the user received, and the tracks hold none of
  -- them for the user any more.
  pub get_active-Tells :
      (level : UserLevel) (uid : String) (jm : JobManager base.Db)
      → is_admin level ≡ false
      → Tells uid jm.tracks (get_active x level uid jm)
  unfolding get_active
  get_active-Tells level uid jm h =
      let r = get_jobs_by_uid base uid upload jm in
      let u = active_uploads x r.1 r.0 in
      let same : u.0.tracks ≡ jm.tracks =
        ap (λ m. m.tracks)
          (caches_then jm r.0 u.0 (get_jobs_by_uid-OnlyCaches base uid upload jm)
            (active_uploads-OnlyCaches x r.1 r.0)) in
      by_if (Tells uid jm.tracks) (is_admin level) (λ a. absurd (ground (arith, a, h)))
        (λ _.
          by_if (Tells uid jm.tracks) u.1
            (λ _.
              subst (λ ts. Tells uid ts (show_downloads x uid u.2 u.0)) same
                (show_downloads-Tells uid u.2 u.0))
            (λ _. inl (refl, same, refl, refl)))

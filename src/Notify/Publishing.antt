-- ===== src/Notify/Publishing.antt =====
-- notify/notify.go: `publishPkgEvent` publishes the event that it is given.
use codemigrate.Prelude.{
  ◌≡◌, refl, List, [], ◌∷◌, Bool, true, false, nat_eq, by_if, by_option, ◌∙◌, if◌then◌else◌,
}
use codemigrate.Errors.{Result, ok, err, by_result}
use codemigrate.Models.{Pkg, Job}
use codemigrate.Models.Engine.{Engine, get_pkg}
use codemigrate.Cydex.{upload, is_upload}
use codemigrate.Nodes.{Outcome, returns, panics, deadlocks, and_then}
use codemigrate.Nodes.Managed.{Lands, Lands-and_then, Lands-weaken}
use codemigrate.Notify.{
  NotifyManage, User, PkgEvent, Fate, published, given_up, dropped, UserEngine, user_of,
  get_user_profile, owner_among, owner_of, fetch_job_info, try_publish, publish_pkg_event,
}

-- What is published of an event is that event, with what was looked up.
abbrev pub Completes : PkgEvent → Fate → Type 0
Completes ev (published ev') = (ev'.notify_type ≡ ev.notify_type) × (ev'.job ≡ ev.job)
Completes ev given_up = Unit
Completes ev dropped = Unit

-- The result of looking up is the event itself, completed.
abbrev Keeps : PkgEvent → Result PkgEvent → Type 0
Keeps ev (err e) = Unit
Keeps ev (ok ev') = Completes ev (published ev')

any_outcome : {A : Type 0} (r : Outcome A) → Lands (λ a. Unit) r
any_outcome (returns a) = tt
any_outcome panics = tt
any_outcome deadlocks = tt

Keeps-after :
    (ev ev' : PkgEvent) (r : Result PkgEvent)
    → Completes ev (published ev')
    → Keeps ev' r
    → Keeps ev r
Keeps-after ev ev' (err e) h k = tt
Keeps-after ev ev' (ok ev'') h k = (k.0 ∙ h.0, k.1 ∙ h.1)

kept_if :
    (ev : PkgEvent) (r : Result PkgEvent) (answered : Bool)
    → Keeps ev r
    → Lands (Completes ev) (elim r [
      | err e ↦ returns given_up
      | ok ev' ↦ returns (if answered then published ev' else given_up)
    ])
kept_if ev (err e) answered k = tt
kept_if ev (ok ev') true k = k
kept_if ev (ok ev') false k = tt

module _ (x : Engine) (y : UserEngine) where
  owner_among-Keeps :
      (users : y.Db) (ev : PkgEvent) (r : Result (List Job))
      → Lands (Keeps ev) (owner_among x y users ev r)
  unfolding owner_among
  owner_among-Keeps users ev (err e) = tt
  owner_among-Keeps users ev (ok []) = (refl, refl)
  owner_among-Keeps users ev (ok (j ∷ k ∷ js)) = (refl, refl)
  owner_among-Keeps users ev (ok (j ∷ [])) =
      Lands-and_then {P = λ u. Unit} (Keeps ev) (user_of (get_user_profile y users j.uid)) _
        (any_outcome (user_of (get_user_profile y users j.uid)))
        (λ u _. by_result (Keeps ev) u (λ e _. tt) (λ u' _. (refl, refl)))

  owner_of-Keeps :
      (db : x.Db) (users : y.Db) (ev : PkgEvent) → Lands (Keeps ev) (owner_of x y db users ev)
  unfolding owner_of
  owner_of-Keeps db users ev =
      by_if (Lands (Keeps ev)) (is_upload ev.job.typ) (λ _. (refl, refl))
        (λ _. owner_among-Keeps users ev (x.find_jobs_by_pid db ev.job.pid upload))

  with_user-Keeps :
      (db : x.Db) (users : y.Db) (ev ev' : PkgEvent) (u : Outcome (Result User))
      (with_u : User → PkgEvent)
      → ((v : User) → Completes ev (published (with_u v)))
      → Lands (Keeps ev) (
          and_then u
            (λ r. elim r [ err e ↦ returns (err e) | ok v ↦ owner_of x y db users (with_u v) ]))
  with_user-Keeps db users ev ev' u with_u h =
      Lands-and_then {P = λ v. Unit} (Keeps ev) u _ (any_outcome u) (λ r _.
        by_result (Lands (Keeps ev)) r (λ e _. tt)
          (λ v _.
            Lands-weaken (owner_of x y db users (with_u v))
              (λ r k. Keeps-after ev (with_u v) r (h v) k) (owner_of-Keeps db users (with_u v))))

  fetch_job_info-Keeps :
      (db : x.Db) (users : y.Db) (ev : PkgEvent) → Lands (Keeps ev) (fetch_job_info x y db users ev)
  unfolding fetch_job_info
  fetch_job_info-Keeps db users ev =
      by_result (Lands (Keeps ev)) (get_pkg x db ev.job.pid) (λ e _. tt)
        (λ found _. by_option {A = Pkg} (Lands (Keeps ev)) found tt (λ p _.
          with_user-Keeps db users ev ev (user_of (get_user_profile y users ev.job.uid)) _
            (λ v. (refl, refl))))

  pub publish_pkg_event-Completes :
      (m : NotifyManage) (db : x.Db) (users : y.Db) (answers : List Bool) (ev : PkgEvent)
      → Lands (Completes ev) (publish_pkg_event x y m db users answers ev)
  unfolding publish_pkg_event
  publish_pkg_event-Completes m db users answers ev =
      Lands-and_then {P = Keeps ev} (Completes ev) (fetch_job_info x y db users ev) _
        (fetch_job_info-Keeps db users ev)
        (λ r. kept_if ev r (try_publish m.max_try_times answers).1)

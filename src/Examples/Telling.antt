-- ===== src/Examples/Telling.antt =====
-- What users are told of jobs.
use codemigrate.Prelude.{List, length, some, none, false, [], ◌∷◌, map, ◌≡◌, refl, arith, true}
use codemigrate.Prelude.Int.{pos, is_at_most_zero}
use codemigrate.Cydex.{download}
use codemigrate.Models.{new_job}
use codemigrate.Jobs.Lifecycle.{process_job}
use codemigrate.Examples.Managing.{engine, ended, caching}
use codemigrate.Notify.{
  NotifyManage, new_notify_manage, set_enable, pkg_event, to_receiver_new_pkg, observe_all,
  PkgEvent,
}
use codemigrate.Notify.Once.{observe_all-process_job}
use codemigrate.Errors.{ok}
use codemigrate.Nodes.Managed.{Lands}
use codemigrate.Notify.{UserEngine}
use codemigrate.Notify.Serving.{at_rest, Turn, takes, ends, serve}

abbrev manage : NotifyManage
manage = set_enable true (new_notify_manage (pos 1) (pos 0))

observe_all-process_job_example :
    map
      (observe_all manage)
      (process_job engine "u_U_p" (process_job engine "u_U_p" caching)).job_observers
    ≡ map (observe_all manage) (process_job engine "u_U_p" caching).job_observers
unfolding codemigrate.Prelude.GoMap.get is_at_most_zero
observe_all-process_job_example =
    observe_all-process_job engine manage "u_U_p" ended caching refl refl refl (omega arith)

abbrev event : PkgEvent
event = pkg_event to_receiver_new_pkg (new_job "u_D_p" "u" "p" download)

abbrev users : UserEngine
users = record {
  Db = Unit;
  find_profile =
      λ db uid. ok (some (record { user_id = 1; user = none; language = 0; email_affairs = 0 }));
  find_user = λ db id. ok (some (record { username = "ann"; email = "ann@example.org" }));
}

-- With room for one, the second event is dropped; the first is published at the second try.
abbrev turns : List (Turn engine users)
turns = takes event ∷ takes event ∷ ends 0 tt tt (false ∷ true ∷ []) ∷ []

fates_test :
    Lands
      (λ s. (length s.running ≡ 0) × (length s.over ≡ 2))
      (serve engine users manage turns at_rest)
unfolding serve new_notify_manage codemigrate.Models.Engine.get_pkg
fates_test = (refl, refl)

-- ===== src/Examples/Packaging.antt =====
-- Packages that are created, shown and deleted.
use codemigrate.Prelude.{String, [], ◌∷◌, ◌≡◌, refl, none, some, true, false, arith, ◌+◌}
use codemigrate.Prelude.Int.{pos}
use codemigrate.Jobs.{JobManager, new_job_manager}
use codemigrate.Unpacker.{DefaultUnpacker, new_default_unpacker}
use codemigrate.Unpacker.Segments.{IsConfigured}
use codemigrate.Examples.Asking.{api, site}
use codemigrate.Examples.Scheduling.{task_a}
use codemigrate.Api.{common, ApiEngine}
use codemigrate.Api.Packages.{percent_of}
use codemigrate.Api.Packages.Percent.{IsPercent, percent_of-IsPercent}
use codemigrate.Api.Packages.Storing.{CreatePkgReq}
use codemigrate.Api.Packages.Creation.{create_pkg}
use codemigrate.Api.Packages.Created.{CreateCase, create_pkg-CreateCase}
use codemigrate.Api.Packages.Removal.{delete_pkgs}
use codemigrate.Api.Packages.Spared.{DeleteCase, delete_pkgs-DeleteCase}
use codemigrate.Api.Packages.Queries.{get_single_pkg, get_file}
use codemigrate.Api.Packages.Views.{IsQuery, queries-IsQuery}
use codemigrate.Cydex.{upload}
use codemigrate.Tracks.{add_track_of_delete}
use codemigrate.Api.Packages.Active.{get_active}
use codemigrate.Api.Packages.ToldOnce.{Tells, get_active-Tells}

percent_test : percent_of 1 0 3 ≡ pos 33
unfolding percent_of
percent_test = refl

percent_of-IsPercent_example : IsPercent (3 + 4) 7 (percent_of 3 4 7)
percent_of-IsPercent_example = percent_of-IsPercent 3 4 7 (omega arith)

abbrev unpacker : DefaultUnpacker
unpacker = new_default_unpacker 5 10

configured : IsConfigured unpacker
unfolding new_default_unpacker
configured = record {
  size_pos = omega arith;
  num_pos = omega arith;
  num_small = omega arith;
  threshold = refl;
}

abbrev order : CreatePkgReq
order = record {
  title = "holiday";
  notes = "";
  encryption_type = 0;
  mtu_size = none;
  files =
      (record { simple = record { is_file = true; size = 12 }; filename = "a"; mode = 420 }) ∷ [];
  receivers = "v" ∷ [];
}

create_pkg-CreateCase_example :
    CreateCase api unpacker 1600000000 "user12345678" order
      (new_job_manager tt)
      (create_pkg api (λ r. true) unpacker 0 1600000000 "user12345678" order (new_job_manager tt))
create_pkg-CreateCase_example =
    create_pkg-CreateCase api (λ r. true) unpacker 0 1600000000 "user12345678" order
      (new_job_manager tt) tt configured refl (λ before inner. refl)

-- A task of the package "p" is in the cache.
delete_pkgs-DeleteCase_example :
    DeleteCase api false "u"
      ("p" ∷ "q" ∷ [])
      (("a", some task_a) ∷ [])
      site.jobs
      (delete_pkgs api common "u" (some ("p" ∷ "q" ∷ [])) (("a", some task_a) ∷ []) site.jobs)
delete_pkgs-DeleteCase_example =
    delete_pkgs-DeleteCase api common "u" ("p" ∷ "q" ∷ []) (("a", some task_a) ∷ []) site.jobs

queries-IsQuery_example :
    IsQuery api common "u" "p" site.jobs (get_single_pkg api common "u" "p" site.jobs)
    × ((fid : String)
        → IsQuery api common "u" "p" site.jobs (get_file api common "u" "p" fid site.jobs))
queries-IsQuery_example = queries-IsQuery api common "u" "p" site.jobs

-- The package "gone", which "u" sent, was deleted.
abbrev with_deletion : JobManager (ApiEngine.base api).Db
with_deletion = record site.jobs { tracks = add_track_of_delete site.jobs.tracks "u" "gone" upload }

told_test : (get_active api common "u" with_deletion).1.del_sender_pkgs ≡ "gone" ∷ []
unfolding get_active codemigrate.Jobs.Queries.get_jobs_by_uid codemigrate.Tracks.get_user_track
    codemigrate.Prelude.GoMap.get add_track_of_delete codemigrate.Tracks.get_track_of_delete
    codemigrate.Tracks.mark codemigrate.Prelude.GoMap.put codemigrate.Tracks.set_member
told_test = refl

get_active-Tells_example : Tells "u" with_deletion.tracks (get_active api common "u" with_deletion)
get_active-Tells_example = get_active-Tells api common "u" with_deletion refl

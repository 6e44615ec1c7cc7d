-- ===== src/Examples/Freeing.antt =====
-- A package whose file is removed from the node that stores it.
use codemigrate.Prelude.{List, [], ◌∷◌, ◌≡◌, refl, none, some, length, arith}
use codemigrate.Cydex.{upload}
use codemigrate.Errors.{ok}
use codemigrate.Models.{File, Job, new_job}
use codemigrate.Nodes.{returns}
use codemigrate.Nodes.Managed.{Lands}
use codemigrate.Api.Transfers.{get_file_detail, detail_of}
use codemigrate.Api.Transfers.Downloads.{build_task_download_req}
use codemigrate.Examples.Asking
use codemigrate.Examples.Asking.{flags, site, caller}
use codemigrate.Examples.Tasking
use codemigrate.Examples.Scheduling.{parse}
use codemigrate.Api.{ApiEngine, SiteOf}
use codemigrate.Api.Packages.Freeing.{Removal, mark_removed, free_pkg_space}
use codemigrate.Api.Packages.Freed.{Readable, Asked, Keeps, free_pkg_space-Asked}

-- The file is stored on the node "n".
abbrev stored : File
stored = record (Asking.file) { storage = "file://n/f"; flag = 1 }

abbrev api : ApiEngine
api = record (Asking.api) {
  base = record (Asking.api.base) {
    find_file = λ db fid. ok (some stored);
    find_files = λ db pid. ok (stored ∷ []);
  };
}

abbrev deleted : Job
deleted = new_job "u_U_p" "u" "p" upload

readable : Readable api flags caller deleted tt stored
unfolding get_file_detail detail_of build_task_download_req codemigrate.Models.Engine.get_pkg
readable = (_, _, refl, refl)

one_sent_test :
    Lands (λ q. length q.1 ≡ 1) (free_pkg_space api flags Tasking.engine parse caller deleted site)
unfolding free_pkg_space get_file_detail codemigrate.Models.Engine.get_pkg build_task_download_req
    codemigrate.Schedulers.Default.dispatch_download codemigrate.Prelude.Text.to_lower
    codemigrate.Nodes.get_by_nid codemigrate.Prelude.GoMap.get
    codemigrate.Nodes.Messages.send_request codemigrate.Nodes.node_at
one_sent_test = refl

free_pkg_space-Asked_example :
    (q : SiteOf api Tasking.engine Unit × List Removal) × (free_pkg_space api flags Tasking.engine
        parse caller deleted site
      ≡ returns (mark_removed api flags Tasking.engine parse deleted q.0, q.1))
    × Keeps api flags Tasking.engine parse site q.0
    × Asked api flags Tasking.engine parse caller deleted site (stored ∷ []) q.1
free_pkg_space-Asked_example =
    free_pkg_space-Asked api flags Tasking.engine parse caller deleted site (readable, tt)

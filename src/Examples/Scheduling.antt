-- ===== src/Examples/Scheduling.antt =====
-- Uploads and downloads that are given to a node.
use codemigrate.Prelude.{
  ℕ, String, List, [], ◌∷◌, ◌++◌, ◌≡◌, refl, Option, none, some, Bool, true, false, arith, All, ◌<◌,
}
use codemigrate.Prelude.GoMap.{get}
use codemigrate.Cydex.{upload, idle}
use codemigrate.Errors.{Result, ok}
use codemigrate.TaskTypes.{Task}
use codemigrate.Nodes.{
  returns, Node, NodeManager, on_add_node, on_node_zone_change, new_node_manager, node_at,
  get_by_nid,
}
use codemigrate.Nodes.Totals.{sums, wrapped, outside, calc_storage-sums}
use codemigrate.Nodes.Storage.{
  calc_storage, heard, calc_zone_storage, IsZoneStorage, calc_zone_storage-IsZoneStorage,
}
use codemigrate.Schedulers.{RestrictMode, by_pid, UploadReq}
use codemigrate.Schedulers.Restrict
use codemigrate.Schedulers.Restrict.{RestrictUploadScheduler, get_pid, add_task}
use codemigrate.Schedulers.Restrict.Affinity.{dispatch_upload-add_task}
use codemigrate.Schedulers.Nas.{new_nas_round_robin_scheduler}
use codemigrate.Schedulers.Nas.Zones.{told, asked, serve, DispatchCase, serve-DispatchCase}
use codemigrate.Schedulers.Default
use codemigrate.Schedulers.Default.{Url, DefaultScheduler}
use codemigrate.Schedulers.Routing.{dispatch_upload_stored}

abbrev pub node_n : Node
node_n = record {
  nid = "n";
  zone_id = "z";
  token = "t";
  info = record {
    total_storage = 9;
    free_storage = 9;
    rx_bandwidth = 1;
    tx_bandwidth = 1;
    upload_task_cnt = 0;
    download_task_cnt = 0;
  };
  login_at = 1;
  seq = 0;
  pending_reqs = [];
  closed = false;
  has_mgr = true;
}

abbrev pub one_node : NodeManager Unit
one_node = record (new_node_manager tt) { nodes = (1, node_n) ∷ []; id_map = ("n", 1) ∷ [] }

abbrev pub task_a : Task
task_a = record {
  task_id = "a";
  typ = upload;
  job_id = "j";
  pid = "p";
  fid = "f";
  node_id = "n";
  zone_id = "z";
  num_segs = 1;
  peer_ip = "";
  allocated_bitrate = 0;
  min_bitrate = 0;
  avg_bitrate = 0;
  max_bitrate = 0;
  state = idle;
  total_traffic = 0;
  bitrates = [];
  bitrates_cnt = 0;
  timestamp = 0;
}

abbrev pub request : UploadReq
request = record {
  task_id = "b";
  pid = "p";
  fid = "g";
  file_storage = "file://n/g";
  size = 2;
  left_pkg_size = 5;
  file_size = 3;
  restrict_mode = by_pid;
  job_id = "j";
  sid_list = "s" ∷ [];
  ip = "";
}

abbrev pub by_package : RestrictUploadScheduler
by_package = record { restrict_mode = by_pid; resource = []; get_id = some get_pid }

dispatch_upload-add_task_example :
    (s' : RestrictUploadScheduler) × (add_task 100 task_a by_package ≡ returns s')
    × ((Restrict.dispatch_upload 250 one_node request s').2 ≡ some 1)
unfolding get_by_nid get codemigrate.Schedulers.get_req_size node_at
dispatch_upload-add_task_example =
    dispatch_upload-add_task 100 250 task_a by_package get_pid one_node request tt refl refl refl
      refl

serve-DispatchCase_example : DispatchCase "z" (
    serve
      (told (on_add_node 1 "y") ∷ told (on_node_zone_change 1 "y" "z") ∷ asked "z" ∷ [])
      new_nas_round_robin_scheduler)
serve-DispatchCase_example =
    serve-DispatchCase
      (told (on_add_node 1 "y") ∷ told (on_node_zone_change 1 "y" "z") ∷ asked "z" ∷ []) "z"

abbrev pub parse : String → Result Url
parse s = ok (record { scheme = "File"; host = "n" })

abbrev pub default_scheduler : DefaultScheduler
default_scheduler = record {
  u_restrict = by_package;
  u_proxy = record { unit_queue = 1 ∷ [] };
  d_nas = new_nas_round_robin_scheduler;
}

dispatch_upload_stored_example :
    ((Default.dispatch_upload parse 100 one_node request default_scheduler).1 ≡ ok (some 1))
    × ((Default.dispatch_upload parse 100 one_node request default_scheduler).0.u_proxy
        ≡ record { unit_queue = 1 ∷ [] })
unfolding codemigrate.Prelude.Text.to_lower Restrict.dispatch_upload get Restrict.del_expired
    codemigrate.Prelude.GoMap.retain get_by_nid
dispatch_upload_stored_example =
    dispatch_upload_stored parse 100 one_node request default_scheduler
      (record { scheme = "File"; host = "n" }) refl refl refl

abbrev two_nodes : NodeManager Unit
two_nodes = record one_node {
  nodes =
      (1, node_n)
      ∷ (
        2,
        record node_n {
          nid = "m";
          info = record (node_n.info) { total_storage = 7; free_storage = 4 };
        },
      )
      ∷ [];
  id_map = ("n", 1) ∷ ("m", 2) ∷ [];
}

calc_zone_storage-IsZoneStorage_example :
    IsZoneStorage
      (heard two_nodes ("n" ∷ "x" ∷ "m" ∷ []))
      (0, 0)
      (calc_zone_storage two_nodes (ok ("n" ∷ "x" ∷ "m" ∷ [])))
calc_zone_storage-IsZoneStorage_example =
    calc_zone_storage-IsZoneStorage two_nodes ("n" ∷ "x" ∷ "m" ∷ [])

storage_test : calc_zone_storage two_nodes (ok ("n" ∷ "x" ∷ "m" ∷ [])) ≡ (9, 4)
unfolding calc_zone_storage get_by_nid get codemigrate.Nodes.Storage.see_node node_at
storage_test = refl

-- A third node is in no zone.
abbrev scattered : NodeManager Unit
scattered = record two_nodes {
  nodes = (3, record node_n { zone_id = "" }) ∷ two_nodes.nodes;
  id_map = ("o", 3) ∷ two_nodes.id_map;
}

abbrev in_zone : String → Result (List String)
in_zone zid = ok ("n" ∷ "m" ∷ [])

calc_storage-sums_example :
    calc_storage scattered (ok ("z" ∷ [])) in_zone
    ≡ wrapped (
        sums (outside scattered scattered.id_map ++ calc_zone_storage scattered (in_zone "z") ∷ []))
calc_storage-sums_example = calc_storage-sums scattered (ok ("z" ∷ [])) in_zone

calc_storage_test : calc_storage scattered (ok ("z" ∷ [])) in_zone ≡ (18, 13)
unfolding calc_storage node_at get calc_zone_storage get_by_nid codemigrate.Nodes.Storage.see_node
calc_storage_test = refl

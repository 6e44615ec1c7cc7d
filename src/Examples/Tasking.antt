-- ===== src/Examples/Tasking.antt =====
-- Tasks that come and go, and their bitrates.
use codemigrate.Prelude.{some, ℕ, true, [], ◌∷◌, ◌≡◌, refl, none, arith, string_eq}
use codemigrate.Prelude.GoMap.{get}
use codemigrate.Errors.{Result, ok}
use codemigrate.Nodes.{node_at}
use codemigrate.Examples.Scheduling.{one_node, task_a, default_scheduler}
use codemigrate.Tasks.{TaskEngine, new_task_manager, add_task, del_task}
use codemigrate.Tasks.Bitrates.{bitrate_statistics}
use codemigrate.Tasks.Statistics.{IsStatistics, bitrate_statistics-IsStatistics}
use codemigrate.Tasks.Dispatch.{System, Answer}
use codemigrate.Tasks.Downloads.{DownloadReq}
use codemigrate.Tasks.Counting.{del_task-add_task}

abbrev pub engine : TaskEngine
engine = record {
  Db = Unit;
  find_task = λ db id. ok none;
  find_tasks_by_job = λ db id. ok [];
  create_task = λ db t. db;
  update_state = λ db t s. db;
  update_total_traffic = λ db t v. db;
  update_bitrate_statistics = λ db t v. db;
}

statistics_test : bitrate_statistics (5 ∷ 0 ∷ 7 ∷ []) ≡ (7, 4, 7)
unfolding bitrate_statistics
statistics_test = refl

bitrate_statistics-IsStatistics_example :
    IsStatistics (5 ∷ 3 ∷ 7 ∷ []) (bitrate_statistics (5 ∷ 3 ∷ 7 ∷ []))
bitrate_statistics-IsStatistics_example =
    bitrate_statistics-IsStatistics 5 (3 ∷ 7 ∷ []) (omega arith)
      (omega arith, (omega arith, (omega arith, tt)))

del_task-add_task_example :
    (node_at
        (del_task engine "a"
          (add_task engine 5 task_a (new_task_manager tt) one_node).0
          (add_task engine 5 task_a (new_task_manager tt) one_node).1).1
        1
      ≡ node_at one_node 1)
    × (get
          (del_task engine "a"
            (add_task engine 5 task_a (new_task_manager tt) one_node).0
            (add_task engine 5 task_a (new_task_manager tt) one_node).1).0.tasks
          "a"
        ≡ none)
unfolding codemigrate.Nodes.get_by_nid get
del_task-add_task_example =
    del_task-add_task engine 5 task_a (new_task_manager tt) one_node 1 1 refl

abbrev pub system : System Unit Unit
system = record { tasks = new_task_manager tt; nodes = one_node; scheduler = default_scheduler }

abbrev accepting : ℕ → Result Answer
accepting u = ok (record { is_ok = true; recomend_bitrate = some 7 })

abbrev fetch : DownloadReq
fetch = record {
  task_id = "d";
  pid = "p";
  fid = "f";
  file_storage = "file://n/f";
  job_id = "j";
  sid_list = "s1" ∷ "s2" ∷ [];
  ip = "";
  max_bitrate = 0;
}

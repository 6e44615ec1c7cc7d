-- ===== src/Examples/Reporting.antt =====
-- Statistics of nodes over a table in memory.
use codemigrate.Prelude.{
  ℕ, String, List, [], ◌∷◌, ◌≡◌, refl, ◌⊎◌, inl, inr, some, ◌==◌, string_eq, arith, Bool-cases,
}
use codemigrate.Prelude.GoMap.{GoMap, get, put, get-put}
use codemigrate.Cydex.{upload}
use codemigrate.Errors.{ok}
use codemigrate.TaskTypes.{TaskState}
use codemigrate.Nodes.{returns, panics}
use codemigrate.Tasks.Bitrates.{bitrate_statistics}
use codemigrate.Stats.{Transfer, Traffic, StatsEngine, new_stat_transfer_manager, calc_min_max_avg}
use codemigrate.Stats.Rates.{calc_min_max_avg-bitrate_statistics}
use codemigrate.Stats.Limits.{KeepsRows, AllWithin}
use codemigrate.Stats.Runs.{StatCall, add_call, del_call, state_call, run, run-AllWithin}
use codemigrate.Stats.Totals.{get_stat}
use codemigrate.Api.{admin}
use codemigrate.Api.Statistics.{OutlineCase, get_transfer_stat, get_transfer_stat-OutlineCase}
use codemigrate.Examples.Scheduling.{task_a}

abbrev values : GoMap String Transfer → List Transfer
values [] = []
values ((k, t) ∷ m) = t ∷ values m

abbrev table : StatsEngine
table = record {
  Db = GoMap String Transfer;
  find_transfer = λ db k. ok (get db k);
  find_transfers = λ db. ok (values db);
  insert_transfer = λ db t. ok (put db t.node_id t);
  update_transfer = λ db t. put db t.node_id t;
}

found_put :
    (db : GoMap String Transfer) (t : Transfer) (k : String) (r : Transfer)
    → ok (get (put db t.node_id t) k) ≡ ok (some r)
    → (ok (get db k) ≡ ok (some r)) ⊎ (r ≡ t)
found_put db t k r e = elim (Bool-cases (t.node_id == k)) [
  | inl same ↦ inr (cc (get-put db t.node_id t k, same))
  | inr other ↦ inl (cc (get-put db t.node_id t k, other))
]

table-KeepsRows : KeepsRows table
table-KeepsRows = record {
  find_updated = found_put;
  find_inserted = λ db db' t k r e f. found_put db t k r (cc (e, f));
}

abbrev segment : String → ℕ → TaskState
segment sid bitrate = record {
  task_id = "a";
  sid = sid;
  state = "end";
  bitrate = bitrate;
  total_bytes = 10;
  real_total_bytes = 10;
  total_traffic = 0;
}

abbrev day : List StatCall
day =
    add_call (some task_a)
    ∷ state_call (some task_a) (some (segment "s1" 5))
    ∷ state_call (some task_a) (some (segment "s2" 0))
    ∷ state_call (some task_a) (some (segment "s3" 7))
    ∷ del_call (some task_a)
    ∷ []

abbrev bytes_of : TaskState → ℕ
bytes_of s = s.total_bytes

run-AllWithin_example : AllWithin table (run table bytes_of day (new_stat_transfer_manager [])).db
unfolding get
run-AllWithin_example =
    run-AllWithin table table-KeepsRows bytes_of day (new_stat_transfer_manager []) (λ k r e. cc)

abbrev busy : Traffic
busy = record { total_bytes = 30; max_bitrate = 7; min_bitrate = 5; avg_bitrate = 4; tasks = 1 }

day_test :
    get_stat table upload (run table bytes_of day (new_stat_transfer_manager [])).db
    ≡ returns (some busy)
unfolding get_stat run codemigrate.Stats.Runs.serve codemigrate.Stats.del_task get
    codemigrate.Stats.task_state_notify codemigrate.Stats.add_task put calc_min_max_avg
day_test = refl

empty_test : get_stat table upload [] ≡ panics
unfolding get_stat
empty_test = refl

abbrev two_rows : GoMap String Transfer
two_rows =
    ("n", record { node_id = "n"; rx = busy; tx = busy })
    ∷ ("m", record { node_id = "m"; rx = record busy { min_bitrate = 0 }; tx = busy })
    ∷ []

get_transfer_stat-OutlineCase_example :
    OutlineCase (ok (values two_rows)) (get_transfer_stat table admin "" two_rows)
get_transfer_stat-OutlineCase_example = get_transfer_stat-OutlineCase table admin two_rows refl

calc_min_max_avg-bitrate_statistics_example : calc_min_max_avg (5 ∷ 7 ∷ []) ≡ (
  (bitrate_statistics (5 ∷ 7 ∷ [])).2,
  (bitrate_statistics (5 ∷ 7 ∷ [])).0,
  (bitrate_statistics (5 ∷ 7 ∷ [])).1,
)
calc_min_max_avg-bitrate_statistics_example =
    calc_min_max_avg-bitrate_statistics (5 ∷ 7 ∷ []) (omega arith, (omega arith, tt))

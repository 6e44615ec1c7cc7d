-- ===== src/Stats/Runs.antt =====
-- statistics/stat_transfer.go: histories of the calls that the task manager makes.
use codemigrate.Prelude.{
  String, List, [], ◌∷◌, Option, none, some, not, ◌||◌, ◌≡◌, ◌==◌, nat_eq, string_eq, length, ℕ,
  by_if, by_option, subst,
}
use codemigrate.Prelude.GoMap.{get}
use codemigrate.Cydex.{TransferType}
use codemigrate.Errors.{by_result}
use codemigrate.TaskTypes.{Task, TaskState}
use codemigrate.Models.Engine.{or_missing}
use codemigrate.Stats.{
  Traffic, Transfer, traffic_of, StatsEngine, StatTask, StatTransferManager, new_transfer,
  new_transfer_with_id, find_or_new, count_task, add_task, save_rates, del_task, note_segment,
  task_entry, task_state_notify, total_bytes_of,
}
use codemigrate.Stats.Limits.{
  BothWithin, add_rates-IsWithin, with_traffic-BothWithin, traffic_of-IsWithin, no_traffic-IsWithin,
  ok_of_found, KeepsRows, AllWithin, updated-AllWithin, new-AllWithin,
}

-- What the statistics are told.
pub data StatCall : Type 0 where
  add_call del_call : Option Task → StatCall
  state_call : Option Task → Option TaskState → StatCall

module _ (x : StatsEngine) (get_total_bytes : TaskState → ℕ) where
  open x use {Db, find_transfer, update_transfer, insert_transfer}

  unfoldable pub serve : StatCall → StatTransferManager Db → StatTransferManager Db
  serve (add_call t) sm = add_task x t sm
  serve (del_call t) sm = del_task x t sm
  serve (state_call t s) sm = task_state_notify get_total_bytes t s sm

  unfoldable pub run : List StatCall → StatTransferManager Db → StatTransferManager Db
  run [] sm = sm
  run (c ∷ cs) sm = run cs (serve c sm)

module _ (x : StatsEngine) (laws : KeepsRows x) where
  open x use {Db, find_transfer, insert_transfer}

  -- The database stays within its limits, and so does the row that is handed on.
  abbrev Found : Db × Option Transfer → Type 0
  Found q = AllWithin x q.0 × ((t : Transfer) → q.1 ≡ some t → BothWithin t)

  new_transfer_with_id-Found :
      (db : Db) (node_id : String) → AllWithin x db → Found (new_transfer_with_id x db node_id)
  unfolding new_transfer_with_id
  new_transfer_with_id-Found db node_id a = (
    new-AllWithin x laws db node_id a,
    λ t.
        by_result (λ (q : Db × Option Transfer). q.1 ≡ some t → BothWithin t)
          (insert_transfer db (new_transfer node_id)) (λ e _ f. cc)
          (λ db' _ f.
            let same : new_transfer node_id ≡ t = cc in
            subst BothWithin same (no_traffic-IsWithin, no_traffic-IsWithin)),
  )

  find_or_new-Found :
      (db : Db) (node_id : String) → AllWithin x db → Found (find_or_new x db node_id)
  unfolding find_or_new
  find_or_new-Found db node_id a =
      by_option {A = Transfer} Found (or_missing (find_transfer db node_id))
        (new_transfer_with_id-Found db node_id a)
        (λ t e. (
          a,
          λ r f. let same : t ≡ r = cc in subst BothWithin same (a node_id t (ok_of_found _ t e)),
        ))

  count_task-AllWithin :
      (typ : TransferType) (r : Transfer) (db : Db)
      → AllWithin x db
      → BothWithin r
      → AllWithin x (count_task x typ r db)
  unfolding count_task
  count_task-AllWithin typ r db a b =
      by_option {A = Traffic} (AllWithin x) (traffic_of typ r) a (λ c e.
        let w = traffic_of-IsWithin typ c r b e in
        updated-AllWithin x laws db _ a
          (with_traffic-BothWithin typ _ r b (record { least = w.least; average = w.average })))

  save_rates-AllWithin :
      (t : Task) (s : StatTask) (r : Transfer) (sm : StatTransferManager Db)
      → AllWithin x sm.db
      → BothWithin r
      → AllWithin x (save_rates x t s r sm).db
  unfolding save_rates
  save_rates-AllWithin t s r sm a b =
      by_option {A = Traffic} (λ (m : StatTransferManager Db). AllWithin x m.db)
        (traffic_of t.typ r) a
        (λ c e. updated-AllWithin x laws sm.db _ a (
          with_traffic-BothWithin t.typ _ r b (
            add_rates-IsWithin (total_bytes_of s) s.bitrates c
              (traffic_of-IsWithin t.typ c r b e))))

  add_task-AllWithin :
      (t : Option Task) (sm : StatTransferManager Db)
      → AllWithin x sm.db
      → AllWithin x (add_task x t sm).db
  unfolding add_task
  add_task-AllWithin none sm a = a
  add_task-AllWithin (some t) sm a =
      let (a', row) = find_or_new-Found sm.db t.node_id a in
      by_option {A = Transfer} (λ (m : StatTransferManager Db). AllWithin x m.db)
        (find_or_new x sm.db t.node_id).1 a' (λ r e. count_task-AllWithin t.typ r _ a' (row r e))

  del_task-AllWithin :
      (t : Option Task) (sm : StatTransferManager Db)
      → AllWithin x sm.db
      → AllWithin x (del_task x t sm).db
  unfolding del_task
  del_task-AllWithin none sm a = a
  del_task-AllWithin (some t) sm a =
      let P : StatTransferManager Db → Type 0 = λ m. AllWithin x m.db in
      by_option {A = StatTask} P (get sm.stat_tasks t.task_id) a (λ s _.
        by_if P (length s.bitrates == 0) (λ _. a)
          (λ _.
            by_option {A = Transfer} P (or_missing (find_transfer sm.db t.node_id)) a
              (λ r e. save_rates-AllWithin t s r sm a (a t.node_id r (ok_of_found _ r e)))))

  task_state_notify-AllWithin :
      (f : TaskState → ℕ) (t : Option Task) (s : Option TaskState) (sm : StatTransferManager Db)
      → AllWithin x sm.db
      → AllWithin x (task_state_notify f t s sm).db
  unfolding task_state_notify note_segment
  task_state_notify-AllWithin f t none sm a = a
  task_state_notify-AllWithin f t (some s) sm a =
      let P : StatTransferManager Db → Type 0 = λ m. AllWithin x m.db in
      by_if P (s.sid == "" || not (s.state == "end")) (λ _. a)
        (λ _. by_option {A = StatTask} P (task_entry t (get sm.stat_tasks s.task_id)) a (λ e _. a))

  serve-AllWithin :
      (f : TaskState → ℕ) (c : StatCall) (sm : StatTransferManager Db)
      → AllWithin x sm.db
      → AllWithin x (serve x f c sm).db
  unfolding serve
  serve-AllWithin f (add_call t) sm a = add_task-AllWithin t sm a
  serve-AllWithin f (del_call t) sm a = del_task-AllWithin t sm a
  serve-AllWithin f (state_call t s) sm a = task_state_notify-AllWithin f t s sm a

  -- Over an engine that keeps rows: if no row's least or average bitrate is above its greatest, then none
  -- is after any history of tasks that come, report and go, even where a sum of bitrates wraps.
  pub run-AllWithin :
      (f : TaskState → ℕ) (cs : List StatCall) (sm : StatTransferManager Db)
      → AllWithin x sm.db
      → AllWithin x (run x f cs sm).db
  unfolding run
  run-AllWithin f [] sm a = a
  run-AllWithin f (c ∷ cs) sm a = run-AllWithin f cs (serve x f c sm) (serve-AllWithin f c sm a)

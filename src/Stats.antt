-- ===== src/Stats.antt =====
-- statistics/stat_transfer.go and statistics/models/transfer.go: what nodes have received and sent. A
-- row has the same five columns for either direction, here a record of its own. The queries of the
-- database engine are an argument; the updates, whose errors are dropped, are functions of the database.
pub mod Rates
pub mod Limits
pub mod Runs
pub mod Totals
use codemigrate.Prelude.{
  ℕ, zero, suc, ◌+◌, ◌-◌, ◌*◌, ◌/◌, ◌%◌, ◌^◌, String, List, [], ◌∷◌, ◌++◌, Option, none, some, Bool,
  true, false, not, ◌&&◌, ◌||◌, ltb, leb, ◌==◌, nat_eq, string_eq, length, if◌then◌else◌,
}
use codemigrate.Prelude.GoMap.{GoMap, get, put, delete}
use codemigrate.Cydex.{TransferType, upload, download, unknown, is_upload, is_download}
use codemigrate.Errors.{Result, ok, err}
use codemigrate.TaskTypes.{Task, TaskState}
use codemigrate.Models.Engine.{or_missing}
use codemigrate.Nodes.{Outcome, returns, panics}

-- The columns of one direction.
pub record Traffic : Type 0 where
  pub total_bytes : ℕ
  pub max_bitrate : ℕ
  pub min_bitrate : ℕ
  pub avg_bitrate : ℕ
  pub tasks : ℕ

abbrev pub no_traffic : Traffic
no_traffic = record {
  total_bytes = 0;
  max_bitrate = 0;
  min_bitrate = 0;
  avg_bitrate = 0;
  tasks = 0;
}

-- A row of `stat_transfer`: `rx` for uploads, `tx` for downloads.
pub record Transfer : Type 0 where
  pub node_id : String
  pub rx : Traffic
  pub tx : Traffic

-- The pointers that a `switch` over the type sets: nil for an unknown type.
abbrev pub traffic_of : TransferType → Transfer → Option Traffic
traffic_of upload t = some t.rx
traffic_of download t = some t.tx
traffic_of (unknown k) t = none

abbrev pub with_traffic : TransferType → Traffic → Transfer → Transfer
with_traffic upload c t = record t { rx = c }
with_traffic download c t = record t { tx = c }
with_traffic (unknown k) c t = t

pub record StatsEngine : Type 1 where
  pub Db : Type 0
  pub find_transfer : Db → String → Result (Option Transfer)
  pub find_transfers : Db → Result (List Transfer)
  pub insert_transfer : Db → Transfer → Result Db
  pub update_transfer : Db → Transfer → Db

pub record StatTask : Type 0 where
  pub typ : TransferType
  pub segs_total_bytes : GoMap String ℕ
  pub bitrates : List ℕ

unfoldable pub sum_bytes : GoMap String ℕ → ℕ → ℕ
sum_bytes [] total = total
sum_bytes ((sid, b) ∷ m) total = sum_bytes m ((total + b) % 2 ^ 64)

-- `TotalBytes`.
unfoldable pub total_bytes_of : StatTask → ℕ
unfolding sum_bytes
total_bytes_of t = sum_bytes t.segs_total_bytes 0

-- The loop of `calcMinMaxAvg`: total, greatest and least so far.
unfoldable pub scan_rates : List ℕ → ℕ → ℕ → ℕ → ℕ × ℕ × ℕ
scan_rates [] total hi lo = (total, hi, lo)
scan_rates (a ∷ l) total hi lo =
    scan_rates l ((total + a) % 2 ^ 64) (if ltb hi a then a else hi)
      (if lo == 0 || (ltb 0 a && ltb a lo) then a else lo)

-- `calcMinMaxAvg`: greatest, least and average.
unfoldable pub calc_min_max_avg : List ℕ → ℕ × ℕ × ℕ
unfolding scan_rates
calc_min_max_avg [] = (0, 0, 0)
calc_min_max_avg (a ∷ l) =
    let (total, hi, lo) = scan_rates (a ∷ l) 0 a a in (hi, lo, total / length (a ∷ l))

-- What `DelTask` makes of the columns, once the task's bytes and bitrates are known.
unfoldable pub add_rates : ℕ → ℕ × ℕ × ℕ → Traffic → Traffic
add_rates bytes (hi, lo, avg) c = record {
  total_bytes = (c.total_bytes + bytes) % 2 ^ 64;
  max_bitrate = if ltb c.max_bitrate hi then hi else c.max_bitrate;
  min_bitrate =
      if c.min_bitrate == 0 || (ltb 0 lo && ltb lo c.min_bitrate) then lo else c.min_bitrate;
  avg_bitrate =
      if leb c.tasks 1 then avg else ((c.avg_bitrate * (c.tasks - 1) + avg) % 2 ^ 64) / c.tasks;
  tasks = c.tasks;
}

abbrev pub last : List ℕ → Option ℕ
last [] = none
last (b ∷ []) = some b
last (b ∷ c ∷ l) = last (c ∷ l)

abbrev pub type_eq : TransferType → TransferType → Bool
type_eq upload u = is_upload u
type_eq download u = is_download u
type_eq (unknown k) upload = false
type_eq (unknown k) download = false
type_eq (unknown k) (unknown j) = k == j

-- The loop of `GetCurBitrate`.
unfoldable pub sum_current : TransferType → GoMap String StatTask → ℕ → ℕ
sum_current typ [] total = total
sum_current typ ((id, t) ∷ m) total = sum_current typ m (
    if type_eq t.typ typ
    then (elim (last t.bitrates) [ none ↦ total | some b ↦ (total + b) % 2 ^ 64 ])
    else total)

-- `TaskStateNotify`: the end of a segment. A task is looked up only if it has no entry yet.
unfoldable pub task_entry : Option Task → Option StatTask → Option StatTask
task_entry t (some s) = some s
task_entry none none = none
task_entry (some t) none = some (record { typ = t.typ; segs_total_bytes = []; bitrates = [] })

abbrev pub new_transfer : String → Transfer
new_transfer node_id = record { node_id = node_id; rx = no_traffic; tx = no_traffic }

pub record StatTransferManager (Db : Type 0) : Type 0 where
  pub stat_tasks : GoMap String StatTask
  pub db : Db

abbrev pub new_stat_transfer_manager : {Db : Type 0} → Db → StatTransferManager Db
new_stat_transfer_manager db = record { stat_tasks = []; db = db }

module _ {Db : Type 0} where
  unfoldable pub get_cur_bitrate : TransferType → StatTransferManager Db → ℕ
  unfolding sum_current
  get_cur_bitrate typ sm = sum_current typ sm.stat_tasks 0

  unfoldable pub note_segment :
      (TaskState → ℕ) → Option Task → TaskState → StatTransferManager Db → StatTransferManager Db
  unfolding task_entry
  note_segment get_total_bytes t s sm = elim (task_entry t (get sm.stat_tasks s.task_id)) [
    | none ↦ sm
    | some e ↦ record sm {
      stat_tasks = put sm.stat_tasks s.task_id (record e {
        segs_total_bytes = put e.segs_total_bytes s.sid (get_total_bytes s);
        bitrates = e.bitrates ++ s.bitrate ∷ [];
      });
    }
  ]

  unfoldable pub task_state_notify :
      (TaskState → ℕ)
      → Option Task
      → Option TaskState
      → StatTransferManager Db
      → StatTransferManager Db
  unfolding note_segment
  task_state_notify get_total_bytes t none sm = sm
  task_state_notify get_total_bytes t (some s) sm =
      if s.sid == "" || not (s.state == "end") then sm else note_segment get_total_bytes t s sm

module _ (x : StatsEngine) where
  open x use {Db, find_transfer, find_transfers, insert_transfer, update_transfer}

  -- `NewTransferWithId`: the row, if it could be inserted.
  unfoldable pub new_transfer_with_id : Db → String → Db × Option Transfer
  new_transfer_with_id db node_id = elim (insert_transfer db (new_transfer node_id)) [
    | err e ↦ (db, none)
    | ok db' ↦ (db', some (new_transfer node_id))
  ]

  unfoldable pub find_or_new : Db → String → Db × Option Transfer
  unfolding new_transfer_with_id
  find_or_new db node_id = elim (or_missing (find_transfer db node_id)) [
    | some t ↦ (db, some t)
    | none ↦ new_transfer_with_id db node_id
  ]

  unfoldable pub count_task : TransferType → Transfer → Db → Db
  count_task typ r db = elim (traffic_of typ r) [
    | none ↦ db
    | some c ↦ update_transfer db (with_traffic typ (record c { tasks = (c.tasks + 1) % 2 ^ 64 }) r)
  ]

  -- `AddTask`.
  unfoldable pub add_task : Option Task → StatTransferManager Db → StatTransferManager Db
  unfolding find_or_new count_task
  add_task none sm = sm
  add_task (some t) sm =
      let (db, row) = find_or_new sm.db t.node_id in
      elim row [ none ↦ record sm { db = db } | some r ↦ record sm { db = count_task t.typ r db } ]

  unfoldable pub save_rates :
      Task → StatTask → Transfer → StatTransferManager Db → StatTransferManager Db
  unfolding add_rates total_bytes_of
  save_rates t s r sm = elim (traffic_of t.typ r) [
    | none ↦ sm
    | some c ↦ record {
      stat_tasks = delete sm.stat_tasks t.task_id;
      db =
          update_transfer sm.db
            (with_traffic t.typ (add_rates (total_bytes_of s) (calc_min_max_avg s.bitrates) c) r);
    }
  ]

  -- `DelTask`: a task of which a segment has ended leaves its rates in the row of its node.
  unfoldable pub del_task : Option Task → StatTransferManager Db → StatTransferManager Db
  unfolding save_rates
  del_task none sm = sm
  del_task (some t) sm = elim (get sm.stat_tasks t.task_id) [
    | none ↦ sm
    | some s ↦
        if length s.bitrates == 0 then sm else elim (or_missing (find_transfer sm.db t.node_id)) [
          | none ↦ sm
          | some r ↦ save_rates t s r sm
        ]
  ]

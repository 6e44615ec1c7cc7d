-- ===== src/Nodes.antt =====
-- transfer/node.go: transfer nodes and their manager. A node is a Go pointer, a number here, into the
-- heap `nodes`; a number that the heap does not hold yet is a node that `NewNode` has just made for a
-- connection. The manager's mutex is not reentrant: a method that takes it twice never returns.
pub mod Rows
pub mod Sessions
pub mod Messages
pub mod Closing
pub mod Logins
pub mod Reloading
pub mod Trust
pub mod Managed
pub mod Kept
pub mod Runs
pub mod Storage
pub mod Totals
use codemigrate.Prelude.{
  ℕ, ◌+◌, ◌-◌, String, List, [], ◌∷◌, ◌++◌, map, Option, none, some, Bool, true, false, not, ◌&&◌,
  ◌==◌, nat_eq, string_eq, if◌then◌else◌,
}
use codemigrate.Prelude.GoMap.{GoMap, get, put, delete}
use codemigrate.Prelude.Int.{ℤ, pos, negsuc}
use codemigrate.Cydex.{TransferType, upload, download, unknown}
use codemigrate.TaskTypes.{TaskState}

-- How a call ends. `panics` also stands for the run-time panics of closed channels.
pub data Outcome {ℓ} (A : Type ℓ) : Type ℓ where
  returns : A → Outcome A
  panics deadlocks : Outcome A

abbrev pub and_then : {A B : Type 0} → Outcome A → (A → Outcome B) → Outcome B
and_then (returns a) k = k a
and_then panics k = panics
and_then deadlocks k = deadlocks

-- A request that waits for its response: its channel has room for one signal and may be closed.
pub record PendingReq : Type 0 where
  pub has_rsp : Bool
  pub is_closed : Bool

pub record NodeInfo : Type 0 where
  pub total_storage : ℕ
  pub free_storage : ℕ
  pub rx_bandwidth : ℕ
  pub tx_bandwidth : ℕ
  pub upload_task_cnt : ℕ
  pub download_task_cnt : ℕ

-- `has_mgr` says whether the field `mgr` is set.
pub record Node : Type 0 where
  pub nid : String
  pub zone_id : String
  pub token : String
  pub info : NodeInfo
  pub login_at : ℕ
  pub seq : ℕ
  pub pending_reqs : GoMap ℕ PendingReq
  pub closed : Bool
  pub has_mgr : Bool

unfoldable pub new_node : Node
new_node = record {
  nid = "";
  zone_id = "";
  token = "";
  info = record {
    total_storage = 0;
    free_storage = 0;
    rx_bandwidth = 0;
    tx_bandwidth = 0;
    upload_task_cnt = 0;
    download_task_cnt = 0;
  };
  login_at = 0;
  seq = 0;
  pending_reqs = [];
  closed = false;
  has_mgr = false;
}

-- What an observer of nodes is told, with the node's zone as the observer reads it.
pub data NodeEvent : Type 0 where
  on_add_node on_del_node : (node : ℕ) → (zone_id : String) → NodeEvent
  on_node_zone_change : (node : ℕ) → (old_zid new_zid : String) → NodeEvent

-- `state_chan` holds what was sent to the channel, oldest first.
pub record NodeManager (Db : Type 0) : Type 0 where
  pub nodes : GoMap ℕ Node
  pub id_map : GoMap String ℕ
  pub observers : List (List NodeEvent)
  pub state_chan : List (List TaskState)
  pub db : Db

abbrev pub new_node_manager : {Db : Type 0} → Db → NodeManager Db
new_node_manager db = record { nodes = []; id_map = []; observers = []; state_chan = []; db = db }

-- `AddTaskCnt`: a count that falls below zero is set to zero.
unfoldable pub add_cnt : ℕ → ℤ → ℕ
add_cnt n (pos v) = n + v
add_cnt n (negsuc v) = n - (v + 1)

unfoldable pub add_task_cnt : TransferType → ℤ → Node → Node
unfolding add_cnt
add_task_cnt upload v n = record n {
  info = record (n.info) { upload_task_cnt = add_cnt n.info.upload_task_cnt v };
}
add_task_cnt download v n = record n {
  info = record (n.info) { download_task_cnt = add_cnt n.info.download_task_cnt v };
}
add_task_cnt (unknown k) v n = n

unfoldable pub verify : String → String → Node → Bool
verify nid token n = n.token == token && n.nid == nid

unfoldable pub is_logined : Node → Bool
is_logined n = not (n.token == "")

-- The loop of `Close` closes every channel; closing one twice is a panic.
unfoldable pub close_pending : GoMap ℕ PendingReq → Option (GoMap ℕ PendingReq)
close_pending [] = some []
close_pending ((seq, req) ∷ reqs) = elim (close_pending reqs) [
  | none ↦ none
  | some closed ↦
      if req.is_closed then none else some ((seq, record req { is_closed = true }) ∷ closed)
]

module _ {Db : Type 0} where
  unfoldable pub node_at : NodeManager Db → ℕ → Node
  node_at nm r = elim (get nm.nodes r) [ none ↦ new_node | some n ↦ n ]

  unfoldable pub set_node : ℕ → Node → NodeManager Db → NodeManager Db
  set_node r n nm = record nm { nodes = put nm.nodes r n }

  unfoldable pub get_by_nid : NodeManager Db → String → Option ℕ
  get_by_nid nm nid = get nm.id_map nid

  unfoldable pub is_online : NodeManager Db → String → Bool
  is_online nm nid = elim (get nm.id_map nid) [ none ↦ false | some r ↦ true ]

  unfoldable pub tell : NodeEvent → NodeManager Db → NodeManager Db
  tell e nm = record nm { observers = map (λ calls. calls ++ e ∷ []) nm.observers }

  unfoldable pub add_observer : NodeManager Db → NodeManager Db
  add_observer nm = record nm { observers = nm.observers ++ [] ∷ [] }

  -- `DelNode` of the manager, by id.
  unfoldable pub del_node : String → NodeManager Db → NodeManager Db
  unfolding tell node_at
  del_node nid nm = elim (get nm.id_map nid) [
    | none ↦ nm
    | some r ↦
        tell (on_del_node r (node_at nm r).zone_id) (record nm { id_map = delete nm.id_map nid })
  ]

-- ===== src/Schedulers/Restrict.antt =====
-- transfer/task/restrict.go: uploads of one package or of one file stay on one node while it is busy
-- with them.
pub mod Affinity
use codemigrate.Prelude.{
  ℕ, ◌-◌, String, List, [], Option, none, some, Bool, true, false, not, ltb, ◌==◌, string_eq,
  if◌then◌else◌,
}
use codemigrate.Prelude.GoMap.{GoMap, get, put, delete, retain}
use codemigrate.Cydex.{is_upload}
use codemigrate.Errors.{Result, ok, err, unknown_mode}
use codemigrate.TaskTypes.{Task}
use codemigrate.Nodes.{Outcome, returns, panics, NodeManager, node_at, get_by_nid}
use codemigrate.Schedulers.{
  RestrictMode, no_restrict, by_pid, by_fid, other_mode, UploadReq, get_req_size,
}

pub record Resource : Type 0 where
  pub nid : String
  pub timestamp : ℕ
  pub expire : ℕ

abbrev pub XidResource : Type 0
XidResource = GoMap String Resource

-- `XidResource.Update`.
unfoldable pub update : ℕ → String → String → XidResource → XidResource
update now xid nid m = if nid == "" then m else elim (get m xid) [
  | none ↦ m
  | some r ↦ if r.nid == nid then put m xid (record r { timestamp = now }) else m
]

abbrev pub is_live : ℕ → Resource → Bool
is_live now r = not (ltb r.expire (now - r.timestamp))

unfoldable pub del_expired : ℕ → XidResource → XidResource
del_expired now m = retain (is_live now) m

unfoldable pub add : ℕ → String → String → ℕ → XidResource → XidResource
unfolding update del_expired
add now xid nid expire m =
    if nid == ""
    then m
    else put (del_expired now (update now xid nid m)) xid
        (record { nid = nid; timestamp = now; expire = expire })

-- `getId` is nil, `GetPid` or `GetFid`.
pub data GetId : Type 0 where
  get_pid get_fid : GetId

abbrev pub id_of_task : GetId → Task → String
id_of_task get_pid t = t.pid
id_of_task get_fid t = t.fid

abbrev pub id_of_req : GetId → UploadReq → String
id_of_req get_pid req = req.pid
id_of_req get_fid req = req.fid

pub record RestrictUploadScheduler : Type 0 where
  pub restrict_mode : RestrictMode
  pub resource : XidResource
  pub get_id : Option GetId

abbrev pub same_mode : RestrictMode → RestrictMode → Bool
same_mode no_restrict no_restrict = true
same_mode by_pid by_pid = true
same_mode by_fid by_fid = true
same_mode _ _ = false

abbrev changed : RestrictMode → Option GetId → RestrictUploadScheduler
changed mode get_id = record { restrict_mode = mode; resource = []; get_id = get_id }

-- The mode that is set already changes nothing; an unknown mode is refused.
unfoldable pub set_restrict :
    RestrictMode → RestrictUploadScheduler → Result RestrictUploadScheduler
set_restrict mode s = if same_mode s.restrict_mode mode then ok s else elim mode [
  | no_restrict ↦ ok (changed no_restrict none)
  | by_pid ↦ ok (changed by_pid (some get_pid))
  | by_fid ↦ ok (changed by_fid (some get_fid))
  | other_mode n ↦ err unknown_mode
]

unfoldable pub new_restrict_upload_scheduler : RestrictMode → Result RestrictUploadScheduler
unfolding set_restrict
new_restrict_upload_scheduler mode =
    set_restrict mode (record { restrict_mode = no_restrict; resource = []; get_id = none })

-- A node that is connected and has more room than asked for.
abbrev pub suitable : {Db : Type 0} → NodeManager Db → ℕ → String → Option ℕ
suitable nm size nid = elim (get_by_nid nm nid) [
  | none ↦ none
  | some u ↦ if ltb size (node_at nm u).info.free_storage then some u else none
]

abbrev pub renew : ℕ → String → Option Resource → Option ℕ → XidResource → XidResource
renew now xid (some r) (some u) m = put m xid (record r { timestamp = now })
renew now xid _ _ m = m

module _ {Db : Type 0} where
  abbrev pub choose : NodeManager Db → ℕ → Option Resource → Option ℕ
  choose nm size none = none
  choose nm size (some r) = if r.nid == "" then none else suitable nm size r.nid

  -- `DispatchUpload`: the scheduler, the request with its mode noted, and the node.
  unfoldable pub dispatch_upload :
      ℕ
      → NodeManager Db
      → UploadReq
      → RestrictUploadScheduler
      → RestrictUploadScheduler × UploadReq × Option ℕ
  dispatch_upload now nm req s = elim s.get_id [
    | none ↦ (s, req, none)
    | some g ↦
        let req' = record req { restrict_mode = s.restrict_mode } in
        let xid = id_of_req g req' in
        let m = del_expired now s.resource in
        let node = choose nm (get_req_size req') (get m xid) in
        (record s { resource = renew now xid (get m xid) node m }, req', node)
  ]

-- `AddTask`: with no restriction `getId` is nil, and its call a panic.
unfoldable pub add_task : ℕ → Task → RestrictUploadScheduler → Outcome RestrictUploadScheduler
unfolding add
add_task now t s =
    if is_upload t.typ
    then elim s.get_id [
      | none ↦ panics
      | some g ↦ returns (record s { resource = add now (id_of_task g t) t.node_id 300 s.resource })
    ]
    else returns s

unfoldable pub task_state_notify :
    ℕ → Option Task → RestrictUploadScheduler → Outcome RestrictUploadScheduler
task_state_notify now none s = returns s
task_state_notify now (some t) s =
    if is_upload t.typ
    then elim s.get_id [
      | none ↦ panics
      | some g ↦ returns (record s { resource = update now (id_of_task g t) t.node_id s.resource })
    ]
    else returns s

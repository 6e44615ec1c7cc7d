-- ===== src/Nodes/Sessions.antt =====
-- transfer/node.go: nodes come and go, and move between zones.
use codemigrate.Prelude.{
  ℕ, String, List, [], ◌∷◌, map, Option, none, some, Bool, true, false, ◌&&◌, ◌==◌, nat_eq,
  string_eq, if◌then◌else◌,
}
use codemigrate.Prelude.GoMap.{GoMap, get, put}
use codemigrate.Errors.{ok, err}
use codemigrate.Models.Engine.{or_missing}
use codemigrate.Nodes.{
  Outcome, returns, panics, deadlocks, and_then, PendingReq, NodeManager, on_add_node,
  on_node_zone_change, close_pending, node_at, set_node, tell, del_node, get_by_nid,
}
use codemigrate.Nodes.Rows.{NodeEngine}

module _ (x : NodeEngine) where
  open x use {Db, find_node, save_logout_time}

  unfoldable pub log_out : ℕ → String → Db → Db
  log_out now nid db = elim (or_missing (find_node db nid)) [
    | none ↦ db
    | some row ↦ save_logout_time db row now
  ]

  unfoldable pub mark_closed : ℕ → GoMap ℕ PendingReq → ℕ → NodeManager Db → NodeManager Db
  unfolding log_out
  mark_closed now reqs r nm =
      let n = node_at nm r in
      let nm1 = set_node r (record n { pending_reqs = reqs; closed = true }) nm in
      record nm1 { db = log_out now n.nid nm1.db }

  -- `Close` of the node `r`.
  unfoldable pub close : ℕ → Bool → ℕ → NodeManager Db → Outcome (NodeManager Db)
  unfolding mark_closed
  close now del_from_mgr r nm =
      let n = node_at nm r in
      elim (close_pending n.pending_reqs) [
        | none ↦ panics
        | some reqs ↦
            let nm' = mark_closed now reqs r nm in
            returns (if del_from_mgr && n.has_mgr then del_node n.nid nm' else nm')
      ]

  -- The old connection of a node with the same id is closed.
  unfoldable pub close_old : ℕ → Option ℕ → NodeManager Db → Outcome (NodeManager Db)
  unfolding close
  close_old now none nm = returns nm
  close_old now (some old) nm = close now false old nm

  unfoldable pub enter : ℕ → NodeManager Db → NodeManager Db
  enter r nm =
      let n = node_at nm r in
      tell (on_add_node r n.zone_id) (record nm { id_map = put nm.id_map n.nid r })

  -- `AddNode` of the manager.
  unfoldable pub add_node : ℕ → ℕ → NodeManager Db → Outcome (NodeManager Db)
  unfolding close_old enter
  add_node now r nm =
      let n = node_at nm r in
      let nm1 = set_node r (record n { has_mgr = true }) nm in
      and_then (close_old now (get nm1.id_map n.nid) nm1) (λ nm2. returns (enter r nm2))

  -- `ReloadModel`, when the caller holds the manager's mutex or not. A missing row is a nil pointer.
  -- The goroutine that sends the new zone to the node is not part of it.
  unfoldable pub reload_model : Bool → ℕ → NodeManager Db → Outcome (NodeManager Db)
  reload_model locked r nm =
      let n = node_at nm r in
      elim (find_node nm.db n.nid) [
        | err e ↦ returns nm
        | ok none ↦ panics
        | ok (some row) ↦
            let moved = λ (m : NodeManager Db). set_node r (record n { zone_id = row.zone_id }) m in
            if row.zone_id == n.zone_id
            then returns nm
            else if n.has_mgr && locked
            then deadlocks
            else if n.has_mgr
            then returns (moved (tell (on_node_zone_change r n.zone_id row.zone_id) nm))
            else returns (moved nm)
      ]

  unfoldable pub walk_reload : List ℕ → NodeManager Db → Outcome (NodeManager Db)
  walk_reload [] nm = returns nm
  walk_reload (r ∷ rs) nm = and_then (reload_model true r nm) (walk_reload rs)

  unfoldable pub reload_listed : List String → NodeManager Db → Outcome (NodeManager Db)
  reload_listed [] nm = returns nm
  reload_listed (nid ∷ nids) nm = elim (get_by_nid nm nid) [
    | none ↦ reload_listed nids nm
    | some r ↦ and_then (reload_model false r nm) (reload_listed nids)
  ]

  -- `ReloadNodeModel`: the walk over all nodes holds the mutex.
  unfoldable pub reload_node_model : Bool → List String → NodeManager Db → Outcome (NodeManager Db)
  unfolding walk_reload reload_listed
  reload_node_model all nid_list nm =
      if all
      then walk_reload (map (λ (e : String × ℕ). e.1) nm.id_map) nm
      else reload_listed nid_list nm

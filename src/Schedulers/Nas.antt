-- ===== src/Schedulers/Nas.antt =====
-- transfer/task/nas_rr.go: one queue of nodes for each zone.
pub mod Zones
use codemigrate.Prelude.{
  ℕ, ◌<◌, String, List, [], ◌∷◌, ◌++◌, ◌≡◌, ◌≢◌, refl, Option, none, some, Bool, true, false, arith,
  length, ltb, ◌==◌, string_eq, nat_eq, if◌then◌else◌,
}
use codemigrate.Prelude.GoMap.{GoMap, get, put, delete, get-put, get-delete}
use codemigrate.Errors.{Result, ok, err, no_such_zone}
use codemigrate.Nodes.{NodeEvent, on_add_node, on_del_node, on_node_zone_change}
use codemigrate.RoundRobin.{RoundRobinScheduler, new_round_robin_scheduler}
use codemigrate.RoundRobin

pub record NasRoundRobinScheduler : Type 0 where
  pub zone_schds : GoMap String (RoundRobinScheduler ℕ)

abbrev pub new_nas_round_robin_scheduler : NasRoundRobinScheduler
new_nas_round_robin_scheduler = record { zone_schds = [] }

abbrev pub zone_queue : Option (RoundRobinScheduler ℕ) → RoundRobinScheduler ℕ
zone_queue none = record { unit_queue = [] }
zone_queue (some q) = q

unfoldable pub zone_add_node : String → ℕ → NasRoundRobinScheduler → NasRoundRobinScheduler
zone_add_node zid n s = if zid == "" then s else record s {
  zone_schds = put s.zone_schds zid (RoundRobin.put (zone_queue (get s.zone_schds zid)) (some n));
}

unfoldable pub zone_del_node : String → ℕ → NasRoundRobinScheduler → NasRoundRobinScheduler
zone_del_node zid n s = elim (get s.zone_schds zid) [
  | none ↦ s
  | some q ↦
      let q' = RoundRobin.pop q (some n) in
      if ltb 0 (RoundRobin.num_units q')
      then record s { zone_schds = put s.zone_schds zid q' }
      else record s { zone_schds = delete s.zone_schds zid }
]

-- `AddNode`, `DelNode` and `NodeZoneChange`, as the node manager calls them.
unfoldable pub observe : NodeEvent → NasRoundRobinScheduler → NasRoundRobinScheduler
unfolding zone_add_node zone_del_node
observe (on_add_node n zid) s = if zid == "" then s else zone_add_node zid n s
observe (on_del_node n zid) s = if zid == "" then s else zone_del_node zid n s
observe (on_node_zone_change n old_zid new_zid) s =
    let s' = if old_zid == "" then s else zone_del_node old_zid n s in
    if new_zid == "" then s' else zone_add_node new_zid n s'

unfoldable pub dispatch : String → NasRoundRobinScheduler → NasRoundRobinScheduler × Result ℕ
dispatch zid s = elim (get s.zone_schds zid) [
  | none ↦ (s, err no_such_zone)
  | some q ↦
      let (q', r) = RoundRobin.get q none in (record s { zone_schds = put s.zone_schds zid q' }, r)
]

-- ===== src/Examples/Zoning.antt =====
-- Nodes that are moved between zones.
use codemigrate.Prelude.{String, [], ◌∷◌, ◌++◌, some}
use codemigrate.Errors.{ok}
use codemigrate.Models.Engine.{or_nil}
use codemigrate.Nodes.{NodeManager, new_node_manager}
use codemigrate.Nodes.Managed.{Lands}
use codemigrate.Examples.Connecting
use codemigrate.Examples.Connecting.{old_node}
use codemigrate.Api.{admin}
use codemigrate.Api.Zones.{
  ZoneEngine, ZoneRow, ZoneNodes, put_zone_nodes, clear_zone_nodes, remove_zone,
}
use codemigrate.Api.Zones.Nodes.{put_node_zone}
use codemigrate.Api.Zones.Reloaded.{IsAdminOnly, Reloaded, zones-Reloaded}

abbrev zone : ZoneRow
zone = record { zid = "z"; name = "east"; desc = "" }

abbrev api : ZoneEngine
api = record {
  base = Connecting.engine;
  find_zone = λ db zid. ok (some zone);
  find_zones = λ db page. ok (zone ∷ []);
  count_zones = λ db. ok 1;
  find_nodes = λ db page. ok [];
  count_nodes = λ db. ok 0;
  find_nids = λ db zid. ok ("n" ∷ []);
  insert_zone = λ db z. ok db;
  set_zone_name = λ db z name. ok db;
  set_zone_desc = λ db z desc. ok db;
  begin = λ db. ok db;
  unzone_nodes = λ db zid. db;
  delete_zone_row = λ db z. db;
  commit = λ db. ok db;
  put_nodes = λ db zid nids. ok db;
  drop_nodes = λ db zid nids. ok db;
  clear_nodes = λ db zid. ok db;
  set_node_name = λ db row name. ok db;
  set_node_zone = λ db row zid. ok db;
  set_public_addr = λ db row addr. ok db;
  set_rx_bandwidth = λ db row v. ok db;
  set_tx_bandwidth = λ db row v. ok db;
}

-- A node that is connected under another zone than that of its row.
abbrev lagging : NodeManager Unit
lagging = record (new_node_manager tt) {
  nodes = (1, record old_node { zone_id = "y" }) ∷ [];
  id_map = ("n", 1) ∷ [];
}

zones-Reloaded_example :
    ((req : ZoneNodes)
      → IsAdminOnly api admin
          (req.add_list ++ req.del_list)
          lagging
          (put_zone_nodes api admin "z" (some req) lagging))
    × IsAdminOnly api admin
        (or_nil (ok ("n" ∷ [])))
        lagging
        (clear_zone_nodes api admin "z" lagging)
    × IsAdminOnly api admin (or_nil (ok ("n" ∷ []))) lagging (remove_zone api admin "z" lagging)
    × ((nid : String) → Lands (Reloaded api (nid ∷ [])) (put_node_zone api nid (some "z") lagging))
zones-Reloaded_example = zones-Reloaded api admin "z" lagging

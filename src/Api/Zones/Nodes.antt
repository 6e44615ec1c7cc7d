-- ===== src/Api/Zones/Nodes.antt =====
-- api/controllers/node.go: the rows of nodes and the nodes that are connected. The reply of a node and the
-- test of addresses are arguments.
use codemigrate.Prelude.{
  ℕ, ◌+◌, String, List, [], ◌∷◌, Option, none, some, Bool, true, false, ◌==◌, nat_eq, string_eq,
  ltb, ◌||◌, ◌&&◌, not, if◌then◌else◌,
}
use codemigrate.Errors.{Result, ok, err}
use codemigrate.Models.Engine.{or_missing}
use codemigrate.Nodes.{Outcome, returns, and_then, NodeManager, node_at, get_by_nid}
use codemigrate.Nodes.Rows.{NodeRow}
use codemigrate.Nodes.Sessions.{reload_node_model}
use codemigrate.Nodes.Messages.{send_request, end_request}
use codemigrate.Api.{
  UserLevel, is_admin, Code, fine, not_allowed, invalid_param, inner_server, Page,
}
use codemigrate.Api.Zones.{ZoneEngine}

-- `cydex.Node`; what is read of a connected node is `none` if it is not.
pub record LiveView : Type 0 where
  pub online_at : ℕ
  pub upload_task_cnt : ℕ
  pub download_task_cnt : ℕ

pub record NodeView : Type 0 where
  pub id : String
  pub name : String
  pub machine_code : String
  pub public_addr : String
  pub rx_bandwidth : ℕ
  pub tx_bandwidth : ℕ
  pub zone_id : String
  pub zone_name : String
  pub online : Option LiveView

-- `cydex.NodeModify`; a field that is left out is `none`.
pub record NodeModify : Type 0 where
  pub name : Option String
  pub public_addr : Option String
  pub rx_bandwidth : Option ℕ
  pub tx_bandwidth : Option ℕ

abbrev or_zero : Option ℕ → ℕ
or_zero none = 0
or_zero (some n) = n

-- A write whose error is counted.
abbrev count_error : {Db : Type 0} → Db × ℕ → Result Db → Db × ℕ
count_error (db, n) (err e) = (db, n + 1)
count_error (db, n) (ok db') = (db', n)

module _ (x : ZoneEngine) where
  open x use {
    base, find_zone, find_nodes, count_nodes, set_node_name, set_node_zone, set_public_addr,
    set_rx_bandwidth, set_tx_bandwidth,
  }

  abbrev zone_name : base.Db → String → String
  zone_name db zid =
      if zid == "" then "" else elim (or_missing (find_zone db zid)) [ none ↦ "" | some z ↦ z.name ]

  abbrev live_view : NodeManager base.Db → String → Option LiveView
  live_view nm nid = elim (get_by_nid nm nid) [
    | none ↦ none
    | some r ↦
        let n = node_at nm r in
        some (record {
          online_at = n.login_at;
          upload_task_cnt = n.info.upload_task_cnt;
          download_task_cnt = n.info.download_task_cnt;
        })
  ]

  -- `getSignalNode`.
  unfoldable pub get_signal_node : NodeManager base.Db → NodeRow → NodeView
  get_signal_node nm row = record {
    id = row.nid;
    name = row.name;
    machine_code = row.machine_code;
    public_addr = row.public_addr;
    rx_bandwidth = row.rx_bandwidth;
    tx_bandwidth = row.tx_bandwidth;
    zone_id = row.zone_id;
    zone_name = zone_name nm.db row.zone_id;
    online = live_view nm row.nid;
  }

  abbrev all_nodes : NodeManager base.Db → List NodeRow → List NodeView
  all_nodes nm [] = []
  all_nodes nm (n ∷ ns) = get_signal_node nm n ∷ all_nodes nm ns

  -- `NodesController.Get`.
  unfoldable pub get_nodes :
      UserLevel → Option Page → NodeManager base.Db → Code × List NodeView × ℕ
  get_nodes level page nm =
      if not (is_admin level) then (not_allowed, [], 0) else elim (find_nodes nm.db page) [
        | err e ↦ (inner_server, [], 0)
        | ok ns ↦ elim (count_nodes nm.db) [
          | err e ↦ (inner_server, [], 0)
          | ok n ↦ (fine, all_nodes nm ns, n)
        ]
      ]

  -- `NodeController.Get`.
  unfoldable pub get_node : UserLevel → String → NodeManager base.Db → Code × Option NodeView
  get_node level nid nm =
      if not (is_admin level)
      then (not_allowed, none)
      else elim (or_missing (base.find_node nm.db nid)) [
        | none ↦ (inner_server, none)
        | some n ↦ (fine, some (get_signal_node nm n))
      ]

  abbrev name_node : NodeRow → Option String → base.Db → base.Db × ℕ
  name_node row none db = (db, 0)
  name_node row (some name) db = count_error (db, 0) (set_node_name db row name)

  -- The bandwidths are written when the node has taken them.
  unfoldable pub save_bandwidth : NodeRow → ℕ → ℕ → base.Db × ℕ → base.Db × ℕ
  save_bandwidth row rx tx (db, n) =
      let (db1, n1) =
        if ltb 0 rx then count_error (db, n) (set_rx_bandwidth db row rx) else (db, n) in
      if ltb 0 tx then count_error (db1, n1) (set_tx_bandwidth db1 row tx) else (db1, n1)

  -- The answer of the node, and whether its code is OK.
  unfoldable pub after_config :
      NodeRow → ℕ → ℕ → Result Bool → NodeManager base.Db → ℕ → NodeManager base.Db × ℕ
  unfolding save_bandwidth
  after_config row rx tx (err e) nm n = (nm, n + 1)
  after_config row rx tx (ok false) nm n = (nm, n + 1)
  after_config row rx tx (ok true) nm n =
      let (db, n') = save_bandwidth row rx tx (nm.db, n) in (record nm { db = db }, n')

  -- A connected node is sent the bandwidths with `SendRequestSync`.
  unfoldable pub config_node :
      NodeRow → ℕ → ℕ → Result Bool → String → NodeManager base.Db → ℕ → NodeManager base.Db × ℕ
  unfolding after_config
  config_node row rx tx reply nid nm n =
      if ltb 0 rx || ltb 0 tx
      then elim (get_by_nid nm nid) [
        | none ↦ (nm, n)
        | some r ↦
            let (nm1, sent) = send_request r nm in
            elim sent [
              | none ↦ (nm1, n + 1)
              | some seq ↦ after_config row rx tx reply (end_request r seq nm1) n
            ]
      ]
      else (nm, n)

  abbrev code_of : ℕ → Code
  code_of n = if ltb 0 n then invalid_param else fine

  unfoldable pub end_patch :
      NodeRow
      → NodeModify
      → Result Bool
      → String
      → NodeManager base.Db × ℕ
      → NodeManager base.Db × Code
  unfolding config_node
  end_patch row req reply nid (nm, n) =
      let (nm', n') =
        config_node row (or_zero req.rx_bandwidth) (or_zero req.tx_bandwidth) reply nid nm n in
      (nm', code_of n')

  -- An address that is not empty must be that of a host. The name has been changed by then.
  unfoldable pub patch_fields :
      (String → Bool)
      → NodeRow
      → NodeModify
      → Result Bool
      → String
      → NodeManager base.Db
      → NodeManager base.Db × Code
  unfolding end_patch
  patch_fields verify row req reply nid nm =
      let (db, n) = name_node row req.name nm.db in
      let named = record nm { db = db } in
      elim req.public_addr [
        | none ↦ end_patch row req reply nid (named, n)
        | some addr ↦
            let (db', n') = count_error (db, n) (set_public_addr db row addr) in
            if not (addr == "") && not (verify addr)
            then (named, invalid_param)
            else end_patch row req reply nid (record nm { db = db' }, n')
      ]

  -- `NodeController.Patch`.
  unfoldable pub patch_node :
      (String → Bool)
      → UserLevel
      → String
      → Option NodeModify
      → Result Bool
      → NodeManager base.Db
      → NodeManager base.Db × Code
  unfolding patch_fields
  patch_node verify level nid body reply nm =
      if not (is_admin level)
      then (nm, not_allowed)
      else elim (or_missing (base.find_node nm.db nid)) [
        | none ↦ (nm, invalid_param)
        | some row ↦ elim body [
          | none ↦ (nm, invalid_param)
          | some req ↦ patch_fields verify row req reply nid nm
        ]
      ]

  abbrev pub is_zone : base.Db → String → Bool
  is_zone db zid =
      if zid == ""
      then true
      else elim (or_missing (find_zone db zid)) [ none ↦ false | some z ↦ true ]

  -- `NodeZoneController.Put`, which does not ask for the level of the user. A body without a zone is `none`.
  unfoldable pub put_node_zone :
      String → Option String → NodeManager base.Db → Outcome (NodeManager base.Db × Code)
  put_node_zone nid none nm = returns (nm, invalid_param)
  put_node_zone nid (some zid) nm = elim (or_missing (base.find_node nm.db nid)) [
    | none ↦ returns (nm, invalid_param)
    | some row ↦
        if not (is_zone nm.db zid)
        then returns (nm, invalid_param)
        else elim (set_node_zone nm.db row zid) [
          | err e ↦ returns (nm, inner_server)
          | ok db ↦
              and_then (reload_node_model base false (nid ∷ []) (record nm { db = db }))
                (λ nm'. returns (nm', fine))
        ]
  ]

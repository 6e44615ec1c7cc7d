-- ===== src/Api/Zones.antt =====
-- api/controllers/zone.go and transfer/models/zone.go: zones and the nodes in them. The queries and writes
-- of the database engine are a parameter.
pub mod Nodes
pub mod Agreement
pub mod Reloaded
use codemigrate.Prelude.{
  ℕ, String, List, [], ◌∷◌, ◌++◌, Option, none, some, Bool, true, false, ◌==◌, nat_eq, string_eq,
  not, if◌then◌else◌,
}
use codemigrate.Errors.{Result, ok, err}
use codemigrate.Models.Engine.{or_missing, or_nil}
use codemigrate.Nodes.{Outcome, returns, panics, deadlocks, and_then, NodeManager}
use codemigrate.Nodes.Rows.{NodeRow, NodeEngine}
use codemigrate.Nodes.Sessions.{reload_node_model}
use codemigrate.Api.{
  UserLevel, is_admin, Code, fine, not_allowed, invalid_param, inner_server, Page,
}

-- A row of `transfer_zone`.
pub record ZoneRow : Type 0 where
  pub zid : String
  pub name : String
  pub desc : String

pub record ZoneEngine : Type 1 where
  pub base : NodeEngine
  pub find_zone : base.Db → String → Result (Option ZoneRow)
  pub find_zones : base.Db → Option Page → Result (List ZoneRow)
  pub count_zones : base.Db → Result ℕ
  pub find_nodes : base.Db → Option Page → Result (List NodeRow)
  pub count_nodes : base.Db → Result ℕ
  pub find_nids : base.Db → String → Result (List String)
  pub insert_zone : base.Db → ZoneRow → Result base.Db
  pub set_zone_name : base.Db → ZoneRow → String → Result base.Db
  pub set_zone_desc : base.Db → ZoneRow → String → Result base.Db
  pub begin : base.Db → Result base.Db
  pub unzone_nodes : base.Db → String → base.Db
  pub delete_zone_row : base.Db → ZoneRow → base.Db
  pub commit : base.Db → Result base.Db
  pub put_nodes : base.Db → String → List String → Result base.Db
  pub drop_nodes : base.Db → String → List String → Result base.Db
  pub clear_nodes : base.Db → String → Result base.Db
  pub set_node_name : base.Db → NodeRow → String → Result base.Db
  pub set_node_zone : base.Db → NodeRow → String → Result base.Db
  pub set_public_addr : base.Db → NodeRow → String → Result base.Db
  pub set_rx_bandwidth : base.Db → NodeRow → ℕ → Result base.Db
  pub set_tx_bandwidth : base.Db → NodeRow → ℕ → Result base.Db

-- `cydex.Zone`.
pub record ZoneView : Type 0 where
  pub id : String
  pub name : String
  pub desc : String
  pub node_list : List String

-- The bodies of requests; a field that is left out is `none`, and a nil list is empty.
pub record ZoneReq : Type 0 where
  pub name : String
  pub desc : Option String

pub record ZoneModify : Type 0 where
  pub name : Option String
  pub desc : Option String

pub record ZoneNodes : Type 0 where
  pub add_list : List String
  pub del_list : List String

abbrev or_empty : Option String → String
or_empty none = ""
or_empty (some s) = s

module _ (x : ZoneEngine) where
  open x use {
    base, find_zone, find_zones, count_zones, find_nids, insert_zone, set_zone_name, set_zone_desc,
    begin, unzone_nodes, delete_zone_row, commit, put_nodes, drop_nodes, clear_nodes,
  }

  abbrev ZoneReply : Type 0
  ZoneReply = Outcome (NodeManager base.Db × Code)

  -- `getSignalZone`.
  unfoldable pub get_signal_zone : base.Db → ZoneRow → ZoneView
  get_signal_zone db z = record {
    id = z.zid;
    name = z.name;
    desc = z.desc;
    node_list = or_nil (find_nids db z.zid);
  }

  abbrev all_zones : base.Db → List ZoneRow → List ZoneView
  all_zones db [] = []
  all_zones db (z ∷ zs) = get_signal_zone db z ∷ all_zones db zs

  -- `ZonesController.Get`.
  unfoldable pub get_zones : UserLevel → Option Page → base.Db → Code × List ZoneView × ℕ
  get_zones level page db =
      if not (is_admin level) then (not_allowed, [], 0) else elim (find_zones db page) [
        | err e ↦ (inner_server, [], 0)
        | ok zs ↦ elim (count_zones db) [
          | err e ↦ (inner_server, [], 0)
          | ok n ↦ (fine, all_zones db zs, n)
        ]
      ]

  -- `ZoneController.Get`.
  unfoldable pub get_zone : UserLevel → String → base.Db → Code × Option ZoneView
  get_zone level zid db =
      if not (is_admin level) then (not_allowed, none) else elim (or_missing (find_zone db zid)) [
        | none ↦ (inner_server, none)
        | some z ↦ (fine, some (get_signal_zone db z))
      ]

  -- `ZonesController.Post`; `fresh` is the new id of `uuid.New`.
  unfoldable pub post_zone :
      UserLevel
      → String
      → Option ZoneReq
      → NodeManager base.Db
      → NodeManager base.Db × Code × Option ZoneView
  post_zone level fresh body nm =
      if not (is_admin level) then (nm, not_allowed, none) else elim body [
        | none ↦ (nm, invalid_param, none)
        | some req ↦
            if req.name == ""
            then (nm, invalid_param, none)
            else (let z : ZoneRow = record {
              zid = fresh;
              name = req.name;
              desc = or_empty req.desc;
            } in
                elim (insert_zone nm.db z) [
                  | err e ↦ (nm, inner_server, none)
                  | ok db ↦ (record nm { db = db }, fine, some (get_signal_zone db z))
                ])
      ]

  -- An empty name is left as it is.
  abbrev rename : ZoneRow → Option String → base.Db → Result base.Db
  rename z none db = ok db
  rename z (some name) db = if name == "" then ok db else set_zone_name db z name

  abbrev describe : ZoneRow → Option String → base.Db → Result base.Db
  describe z none db = ok db
  describe z (some desc) db = set_zone_desc db z desc

  abbrev shown_again : String → base.Db → Option ZoneView
  shown_again zid db = elim (or_missing (find_zone db zid)) [
    | none ↦ none
    | some z ↦ some (get_signal_zone db z)
  ]

  -- `ZoneController.Patch`: a change of the name stays if that of the description fails.
  unfoldable pub patch_zone :
      UserLevel
      → String
      → Option ZoneModify
      → NodeManager base.Db
      → NodeManager base.Db × Code × Option ZoneView
  patch_zone level zid body nm =
      if not (is_admin level) then (nm, not_allowed, none) else elim body [
        | none ↦ (nm, invalid_param, none)
        | some req ↦ elim (or_missing (find_zone nm.db zid)) [
          | none ↦ (nm, invalid_param, none)
          | some z ↦ elim (rename z req.name nm.db) [
            | err e ↦ (nm, inner_server, none)
            | ok db ↦ elim (describe z req.desc db) [
              | err e ↦ (record nm { db = db }, inner_server, none)
              | ok db' ↦ (record nm { db = db' }, fine, shown_again zid db')
            ]
          ]
        ]
      ]

  -- `DeleteZone` of the model: the nodes of the zone lose it in the same transaction.
  unfoldable pub delete_zone : base.Db → String → Result base.Db
  delete_zone db zid = elim (find_zone db zid) [
    | err e ↦ err e
    | ok none ↦ ok db
    | ok (some z) ↦ elim (begin db) [
      | err e ↦ err e
      | ok s ↦ commit (delete_zone_row (unzone_nodes s zid) z)
    ]
  ]

  -- The nodes of a list read their rows again.
  unfoldable pub reload : List String → base.Db → NodeManager base.Db → ZoneReply
  reload nids db nm =
      and_then (reload_node_model base false nids (record nm { db = db }))
        (λ nm'. returns (nm', fine))

  abbrev pub reload_or : List String → Result base.Db → NodeManager base.Db → ZoneReply
  reload_or nids (err e) nm = returns (nm, inner_server)
  reload_or nids (ok db) nm = reload nids db nm

  -- `ZoneController.Delete`.
  unfoldable pub remove_zone : UserLevel → String → NodeManager base.Db → ZoneReply
  unfolding delete_zone reload
  remove_zone level zid nm =
      if not (is_admin level)
      then returns (nm, not_allowed)
      else reload_or (or_nil (find_nids nm.db zid)) (delete_zone nm.db zid) nm

  -- What is left to do when the nodes to add are in the zone: their rows stay changed if the next write fails.
  unfoldable pub drop_and_reload : ZoneRow → ZoneNodes → base.Db → NodeManager base.Db → ZoneReply
  unfolding reload
  drop_and_reload z req db nm = elim (drop_nodes db z.zid req.del_list) [
    | err e ↦ returns (record nm { db = db }, inner_server)
    | ok db' ↦ reload (req.add_list ++ req.del_list) db' nm
  ]

  -- `ZoneNodesController.Put`.
  unfoldable pub put_zone_nodes :
      UserLevel → String → Option ZoneNodes → NodeManager base.Db → ZoneReply
  unfolding drop_and_reload
  put_zone_nodes level zid body nm =
      if not (is_admin level) then returns (nm, not_allowed) else elim body [
        | none ↦ returns (nm, invalid_param)
        | some req ↦ elim (or_missing (find_zone nm.db zid)) [
          | none ↦ returns (nm, invalid_param)
          | some z ↦ elim (put_nodes nm.db z.zid req.add_list) [
            | err e ↦ returns (nm, inner_server)
            | ok db ↦ drop_and_reload z req db nm
          ]
        ]
      ]

  -- `ZoneNodesController.Delete`.
  unfoldable pub clear_zone_nodes : UserLevel → String → NodeManager base.Db → ZoneReply
  unfolding reload
  clear_zone_nodes level zid nm =
      if not (is_admin level)
      then returns (nm, not_allowed)
      else elim (or_missing (find_zone nm.db zid)) [
        | none ↦ returns (nm, invalid_param)
        | some z ↦ reload_or (or_nil (find_nids nm.db zid)) (clear_nodes nm.db z.zid) nm
      ]

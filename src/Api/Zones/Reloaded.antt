-- ===== src/Api/Zones/Reloaded.antt =====
-- api/controllers/zone.go and node.go: what requests that move nodes between zones leave behind.
use codemigrate.Prelude.{
  String, List, [], ◌∷◌, ◌++◌, ◌≡◌, ◌≢◌, refl, some, false, not, by_if, by_option, if◌then◌else◌,
}
use codemigrate.Errors.{Result, ok, err, by_result}
use codemigrate.Models.Engine.{or_missing, or_nil}
use codemigrate.Nodes.{Outcome, returns, NodeManager}
use codemigrate.Nodes.Managed.{Lands, Lands-and_then}
use codemigrate.Nodes.Sessions.{reload_node_model}
use codemigrate.Api.{UserLevel, is_admin, Code, fine, not_allowed, invalid_param, inner_server}
use codemigrate.Api.Zones.{
  ZoneEngine, ZoneNodes, reload, delete_zone, reload_or, remove_zone, drop_and_reload,
  put_zone_nodes, clear_zone_nodes,
}
use codemigrate.Api.Zones.Nodes.{put_node_zone, is_zone}
use codemigrate.Api.Zones.Agreement.{AllAgree, reload_listed-AllAgree}

not_allowed-ne-fine : not_allowed ≢ fine
not_allowed-ne-fine h = cc

invalid-ne-fine : invalid_param ≢ fine
invalid-ne-fine h = cc

inner-ne-fine : inner_server ≢ fine
inner-ne-fine h = cc

module _ (x : ZoneEngine) where
  open x use {base}

  -- If a request is answered with OK, then those of the nodes that are connected have the zones of their rows.
  abbrev pub Reloaded : List String → NodeManager base.Db × Code → Type 0
  Reloaded nids q = q.1 ≡ fine → AllAgree base nids q.0

  -- The same, and the request of a user who is not an administrator changes nothing.
  pub record IsAdminOnly (level : UserLevel) (nids : List String) (nm : NodeManager base.Db)
      (r : Outcome (NodeManager base.Db × Code)) : Type 0 where
    pub reloaded : Lands (Reloaded nids) r
    pub guarded : is_admin level ≡ false → r ≡ returns (nm, not_allowed)

  reload-Reloaded :
      (nids : List String) (db : base.Db) (nm : NodeManager base.Db)
      → Lands (Reloaded nids) (reload x nids db nm)
  unfolding reload reload_node_model
  reload-Reloaded nids db nm =
      Lands-and_then (Reloaded nids) (reload_node_model base false nids (record nm { db = db }))
        (λ nm'. returns (nm', fine)) (reload_listed-AllAgree base nids (record nm { db = db }))
        (λ nm' (k, a) _. a)

  -- A request that is served behind the test of the level.
  guard-IsAdminOnly :
      (level : UserLevel) (nids : List String) (nm : NodeManager base.Db)
      (r : Outcome (NodeManager base.Db × Code))
      → Lands (Reloaded nids) r
      → IsAdminOnly level nids nm (if not (is_admin level) then returns (nm, not_allowed) else r)
  guard-IsAdminOnly level nids nm r h = record {
    reloaded =
        by_if (Lands (Reloaded nids)) (not (is_admin level)) (λ _ k. absurd (not_allowed-ne-fine k))
          (λ _. h);
    guarded = λ e. rw e refl;
  }

  put_zone_nodes-IsAdminOnly :
      (level : UserLevel) (zid : String) (req : ZoneNodes) (nm : NodeManager base.Db)
      → IsAdminOnly level
          (req.add_list ++ req.del_list)
          nm
          (put_zone_nodes x level zid (some req) nm)
  unfolding put_zone_nodes drop_and_reload
  put_zone_nodes-IsAdminOnly level zid req nm =
      let nids = req.add_list ++ req.del_list in
      let P : Outcome (NodeManager base.Db × Code) → Type 0 = Lands (Reloaded nids) in
      guard-IsAdminOnly level nids nm _ (
        by_option P (or_missing (x.find_zone nm.db zid)) (λ k. absurd (invalid-ne-fine k))
          (λ z _.
            by_result P (x.put_nodes nm.db z.zid req.add_list) (λ e _ k. absurd (inner-ne-fine k))
              (λ db _.
                by_result P (x.drop_nodes db z.zid req.del_list) (λ e _ k. absurd (inner-ne-fine k))
                  (λ db' _. reload-Reloaded nids db' nm))))

  reload_or-Reloaded :
      (nids : List String) (r : Result base.Db) (nm : NodeManager base.Db)
      → Lands (Reloaded nids) (reload_or x nids r nm)
  reload_or-Reloaded nids (err e) nm = λ k. absurd (inner-ne-fine k)
  reload_or-Reloaded nids (ok db) nm = reload-Reloaded nids db nm

  remove_zone-IsAdminOnly :
      (level : UserLevel) (zid : String) (nm : NodeManager base.Db)
      → IsAdminOnly level (or_nil (x.find_nids nm.db zid)) nm (remove_zone x level zid nm)
  unfolding remove_zone
  remove_zone-IsAdminOnly level zid nm =
      let nids = or_nil (x.find_nids nm.db zid) in
      guard-IsAdminOnly level nids nm _ (reload_or-Reloaded nids (delete_zone x nm.db zid) nm)

  clear_zone_nodes-IsAdminOnly :
      (level : UserLevel) (zid : String) (nm : NodeManager base.Db)
      → IsAdminOnly level (or_nil (x.find_nids nm.db zid)) nm (clear_zone_nodes x level zid nm)
  unfolding clear_zone_nodes
  clear_zone_nodes-IsAdminOnly level zid nm =
      let nids = or_nil (x.find_nids nm.db zid) in
      guard-IsAdminOnly level nids nm _ (
        by_option (Lands (Reloaded nids)) (or_missing (x.find_zone nm.db zid))
          (λ k. absurd (invalid-ne-fine k))
          (λ z _. reload_or-Reloaded nids (x.clear_nodes nm.db z.zid) nm))

  put_node_zone-Reloaded :
      (nid zid : String) (nm : NodeManager base.Db)
      → Lands (Reloaded (nid ∷ [])) (put_node_zone x nid (some zid) nm)
  unfolding put_node_zone reload_node_model
  put_node_zone-Reloaded nid zid nm =
      let P : Outcome (NodeManager base.Db × Code) → Type 0 = Lands (Reloaded (nid ∷ [])) in
      by_option P (or_missing (base.find_node nm.db nid)) (λ k. absurd (invalid-ne-fine k))
        (λ row _.
          by_if P (not (is_zone x nm.db zid)) (λ _ k. absurd (invalid-ne-fine k))
            (λ _.
              by_result P (x.set_node_zone nm.db row zid) (λ e _ k. absurd (inner-ne-fine k))
                (λ db _.
                  Lands-and_then (Reloaded (nid ∷ []))
                    (reload_node_model base false (nid ∷ []) (record nm { db = db }))
                    (λ nm'. returns (nm', fine))
                    (reload_listed-AllAgree base (nid ∷ []) (record nm { db = db }))
                    (λ nm' (k, a) _. a))))

  -- Requests that move nodes between zones: if one returns and is answered with OK, the nodes concerned that are
  -- connected have the zones of their rows; and but for the request for a single node, that of a user who is
  -- not an administrator changes nothing.
  pub zones-Reloaded :
      (level : UserLevel) (zid : String) (nm : NodeManager base.Db)
      → ((req : ZoneNodes)
          → IsAdminOnly level
              (req.add_list ++ req.del_list)
              nm
              (put_zone_nodes x level zid (some req) nm))
        × IsAdminOnly level (or_nil (x.find_nids nm.db zid)) nm (clear_zone_nodes x level zid nm)
        × IsAdminOnly level (or_nil (x.find_nids nm.db zid)) nm (remove_zone x level zid nm)
        × ((nid : String) → Lands (Reloaded (nid ∷ [])) (put_node_zone x nid (some zid) nm))
  zones-Reloaded level zid nm = (
    λ req. put_zone_nodes-IsAdminOnly level zid req nm,
    clear_zone_nodes-IsAdminOnly level zid nm,
    remove_zone-IsAdminOnly level zid nm,
    λ nid. put_node_zone-Reloaded nid zid nm,
  )

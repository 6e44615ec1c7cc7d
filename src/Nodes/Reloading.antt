-- ===== src/Nodes/Reloading.antt =====
-- transfer/node.go: nodes read their rows again.
use codemigrate.Prelude.{
  ℕ, String, List, [], ◌∷◌, ◌≡◌, refl, ◌⊎◌, inl, inr, Option, none, some, true, arith, ◌==◌,
  string_eq, nat_eq, All, if◌then◌else◌, ◌&&◌, map,
}
use codemigrate.Errors.{by_result}
use codemigrate.Nodes.{
  Outcome, returns, panics, deadlocks, NodeManager, on_node_zone_change, node_at, set_node, tell,
}
use codemigrate.Nodes.Rows.{NodeRow, NodeEngine}
use codemigrate.Nodes.Sessions.{reload_model, walk_reload, reload_node_model}

module _ (x : NodeEngine) where
  open x use {Db}

  -- A call without effect: it returns the state as it was, or does not return.
  abbrev pub IsIdle : NodeManager Db → Outcome (NodeManager Db) → Type 0
  IsIdle nm r = (r ≡ returns nm) ⊎ ((r ≡ panics) ⊎ (r ≡ deadlocks))

  IsIdle-reload_model :
      (r : ℕ) (nm : NodeManager Db)
      → (node_at nm r).has_mgr ≡ true
      → IsIdle nm (reload_model x true r nm)
  unfolding reload_model
  IsIdle-reload_model r nm m =
      by_result (IsIdle nm) (x.find_node nm.db (node_at nm r).nid) (λ e _. inl refl)
        (λ o _. row_case o)
    where
      row_case :
          (o : Option NodeRow)
          → IsIdle nm (elim o [
            | none ↦ panics
            | some row ↦
                let n = node_at nm r in
                let moved =
                  λ (q : NodeManager Db). set_node r (record n { zone_id = row.zone_id }) q in
                if row.zone_id == n.zone_id
                then returns nm
                else if n.has_mgr && true
                then deadlocks
                else if n.has_mgr
                then returns (moved (tell (on_node_zone_change r n.zone_id row.zone_id) nm))
                else returns (moved nm)
          ])
      row_case none = inr (inl refl)
      row_case (some row) = ground (arith, m)

  IsIdle-walk_reload :
      (rs : List ℕ) (nm : NodeManager Db)
      → All (λ r. (node_at nm r).has_mgr ≡ true) rs
      → IsIdle nm (walk_reload x rs nm)
  unfolding walk_reload
  IsIdle-walk_reload [] nm h = inl refl
  IsIdle-walk_reload (r ∷ rs) nm h = elim (IsIdle-reload_model r nm h.0) [
    | inl e ↦ rw e (IsIdle-walk_reload rs nm h.1)
    | inr (inl e) ↦ inr (inl (rw e refl))
    | inr (inr e) ↦ inr (inr (rw e refl))
  ]

  -- The reload of all nodes never has an effect: no node moves to its new zone and no observer is told.
  -- The call returns with everything as it was, or it dies on a missing row, or, when a zone has
  -- changed, it waits for ever for the mutex that it holds itself.
  pub reload_node_model-IsIdle :
      (nid_list : List String) (nm : NodeManager Db)
      → All (λ (e : String × ℕ). (node_at nm e.1).has_mgr ≡ true) nm.id_map
      → IsIdle nm (reload_node_model x true nid_list nm)
  unfolding reload_node_model
  reload_node_model-IsIdle nid_list nm h = IsIdle-walk_reload _ nm (nodes_of nm.id_map h)
    where
      nodes_of :
          (l : List (String × ℕ))
          → All (λ (e : String × ℕ). (node_at nm e.1).has_mgr ≡ true) l
          → All (λ r. (node_at nm r).has_mgr ≡ true) (map (λ (e : String × ℕ). e.1) l)
      nodes_of [] h = tt
      nodes_of (e ∷ l) h = (h.0, nodes_of l h.1)

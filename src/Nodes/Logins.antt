-- ===== src/Nodes/Logins.antt =====
-- transfer/node.go: a node that logs in while its old connection is still open.
use codemigrate.Prelude.{
  ℕ, String, [], ◌≡◌, refl, ap, ◌∙◌, some, true, false, arith, ◌==◌, nat_eq, string_eq,
  if◌then◌else◌, by_if, ==_self,
}
use codemigrate.Prelude.GoMap.{get, get-put_self, get-delete_self}
use codemigrate.Nodes.{
  returns, and_then, Node, NodeManager, close_pending, node_at, set_node, get_by_nid, is_online,
  tell, del_node,
}
use codemigrate.Nodes.Rows.{NodeEngine}
use codemigrate.Nodes.Sessions.{close, mark_closed, close_old, add_node, enter}
use codemigrate.Nodes.Closing.{node_at-set_node, node_at-mark_closed, close_open}

module _ {Db : Type 0} where
  is_online-del_node :
      (nid : String) (nm : NodeManager Db) → is_online (del_node nid nm) nid ≡ false
  unfolding is_online del_node tell
  is_online-del_node nid nm = ground (arith, get-delete_self nm.id_map nid)

module _ (x : NodeEngine) where
  open x use {Db}

  node_at-enter : (r q : ℕ) (nm : NodeManager Db) → node_at (enter x r nm) q ≡ node_at nm q
  unfolding enter tell node_at
  node_at-enter r q nm = refl

  get_by_nid-enter :
      (r : ℕ) (nid : String) (nm : NodeManager Db)
      → (node_at nm r).nid ≡ nid
      → get_by_nid (enter x r nm) nid ≡ some r
  unfolding enter tell get_by_nid
  get_by_nid-enter r nid nm e = rw e (get-put_self nm.id_map nid r)

  -- The manager after `AddNode` of `r` has closed the connection `o`, which waits for nothing.
  abbrev replaced : ℕ → ℕ → ℕ → NodeManager Db → NodeManager Db
  replaced now r o nm =
      enter x r (mark_closed x now [] o (set_node r (record (node_at nm r) { has_mgr = true }) nm))

  -- An old connection of the node, which waits for no response.
  pub record IsOld (nid : String) (r o : ℕ) (nm : NodeManager Db) : Type 0 where
    pub known : get_by_nid nm nid ≡ some o
    pub other : (r == o) ≡ false
    pub new_nid : (node_at nm r).nid ≡ nid
    pub old_nid : (node_at nm o).nid ≡ nid
    pub managed : (node_at nm o).has_mgr ≡ true
    pub idle : (node_at nm o).pending_reqs ≡ []

  at_old :
      (nid : String) (r o : ℕ) (nm : NodeManager Db) (n : Node)
      → IsOld nid r o nm
      → node_at (set_node r n nm) o ≡ node_at nm o
  at_old nid r o nm n old = rw (node_at-set_node nm r o n, old.other) refl

  add_node-replaced :
      (now : ℕ) (nid : String) (r o : ℕ) (nm : NodeManager Db)
      → IsOld nid r o nm
      → add_node x now r nm ≡ returns (replaced now r o nm)
  unfolding add_node close_old get_by_nid set_node close_pending
  add_node-replaced now nid r o nm old =
      let nm1 = set_node r (record (node_at nm r) { has_mgr = true }) nm in
      ap (λ q. and_then (close_old x now q nm1) (λ nm2. returns (enter x r nm2)))
        (ap (get nm.id_map) old.new_nid ∙ old.known)
      ∙ ap (λ q. and_then q (λ nm2. returns (enter x r nm2)))
          (close_open x now false o nm1 [] (
            ap (λ (n : Node). close_pending n.pending_reqs) (at_old nid r o nm _ old)
            ∙ ap close_pending old.idle
            ∙ refl))

  at_replaced :
      (now : ℕ) (nid : String) (r o : ℕ) (nm : NodeManager Db)
      → IsOld nid r o nm
      → node_at (replaced now r o nm) o ≡ record (node_at nm o) { pending_reqs = []; closed = true }
  at_replaced now nid r o nm old =
      let nm1 = set_node r (record (node_at nm r) { has_mgr = true }) nm in
      node_at-enter r o (mark_closed x now [] o nm1)
      ∙ node_at-mark_closed x now [] o o nm1
      ∙ ap
          (λ b.
            if b
            then record (node_at nm1 o) { pending_reqs = []; closed = true }
            else node_at nm1 o)
          (==_self o)
      ∙ ap (λ (n : Node). record n { pending_reqs = []; closed = true }) (at_old nid r o nm _ old)

  nid_replaced :
      (now : ℕ) (nid : String) (r o : ℕ) (nm : NodeManager Db)
      → IsOld nid r o nm
      → (node_at
          (mark_closed x now [] o (set_node r (record (node_at nm r) { has_mgr = true }) nm))
          r).nid
        ≡ nid
  nid_replaced now nid r o nm old =
      let nm1 = set_node r (record (node_at nm r) { has_mgr = true }) nm in
      let at_r : (node_at nm1 r).nid ≡ nid =
        rw (node_at-set_node nm r r (record (node_at nm r) { has_mgr = true }), ==_self r)
          old.new_nid in
      let at_o : (node_at nm1 o).nid ≡ nid =
        rw (at_old nid r o nm (record (node_at nm r) { has_mgr = true }) old) old.old_nid in
      ap (λ (n : Node). n.nid) (node_at-mark_closed x now [] o r nm1)
      ∙ by_if (λ (n : Node). n.nid ≡ nid) (o == r) (λ _. at_o) (λ _. at_r)

  -- When a node enters the manager while an old connection of it, which waits for no response, is
  -- known there, the new connection takes its place; when the old connection then ends, its cleanup
  -- removes the new one, and the node counts as offline.
  pub login_again :
      (now now' : ℕ) (nid : String) (r o : ℕ) (nm : NodeManager Db)
      → IsOld nid r o nm
      → (nm1 nm2 : NodeManager Db) × (add_node x now r nm ≡ returns nm1)
        × (get_by_nid nm1 nid ≡ some r)
        × (close x now' true o nm1 ≡ returns nm2)
        × (is_online nm2 nid ≡ false)
  unfolding close_pending
  login_again now now' nid r o nm old =
      let nm1 = replaced now r o nm in
      let at_o = at_replaced now nid r o nm old in
      let nm2 = mark_closed x now' [] o nm1 in
      (
        nm1,
        del_node nid nm2,
        add_node-replaced now nid r o nm old,
        get_by_nid-enter r nid _ (nid_replaced now nid r o nm old),
        close_open x now' true o nm1 [] (ap (λ (n : Node). close_pending n.pending_reqs) at_o)
            ∙ ap (λ (n : Node). returns (if n.has_mgr then del_node n.nid nm2 else nm2)) at_o
            ∙ ap (λ b. returns (if b then del_node (node_at nm o).nid nm2 else nm2)) old.managed
            ∙ ap (λ s. returns (del_node s nm2)) old.old_nid,
        is_online-del_node nid nm2,
      )

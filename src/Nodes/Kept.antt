-- ===== src/Nodes/Kept.antt =====
-- transfer/node.go: every node that the manager knows has the manager, whatever connections open and close.
use codemigrate.Prelude.{
  ℕ, String, List, [], ◌∷◌, ◌≡◌, refl, ap, ◌∙◌, Option, none, some, Bool, true, false, ◌==◌, nat_eq,
  string_eq, by_if, by_option, ◌&&◌,
}
use codemigrate.Prelude.GoMap.{GoMap, get}
use codemigrate.Errors.{by_result}
use codemigrate.Models.Engine.{or_missing}
use codemigrate.Prelude.Text.{to_lower}
use codemigrate.Nodes.{
  Outcome, returns, Node, PendingReq, NodeManager, node_at, set_node, tell, close_pending,
  get_by_nid, on_node_zone_change,
}
use codemigrate.Nodes.Rows.{NodeRow, NodeEngine}
use codemigrate.Nodes.Sessions.{
  close, close_old, mark_closed, enter, add_node, reload_model, reload_listed,
}
use codemigrate.Nodes.Messages.{
  Message, Reply, LoginReq, handle_register, handle_login, handle_request, note_login, logged_in,
  save_bandwidths, accept,
}
use codemigrate.Nodes.Closing.{node_at-del_node}
use codemigrate.Nodes.Managed.{
  All-put, Lands, Lands-and_then, HasMgr, IsManaged, HasMgr-set_node, HasMgr-self,
  set_node-IsManaged, del_node-IsManaged, handle_keep_alive-IsManaged,
  handle_transfer_notify-IsManaged,
}

module _ (x : NodeEngine) where
  open x use {Db}

  -- The nodes that the manager knows are managed, and a node that had the manager has it still.
  abbrev pub Keeps : NodeManager Db → NodeManager Db → Type 0
  Keeps nm m = IsManaged m × ((e : String × ℕ) → HasMgr nm e → HasMgr m e)

  pub mark_closed-Keeps :
      (now : ℕ) (reqs : GoMap ℕ PendingReq) (r : ℕ) (nm : NodeManager Db)
      → IsManaged nm
      → Keeps nm (mark_closed x now reqs r nm)
  unfolding mark_closed node_at set_node
  mark_closed-Keeps now reqs r nm h =
      (set_node-IsManaged nm r _ (λ p. p) h, λ e p. HasMgr-set_node nm r _ e (λ q. q) p)

  pub close-Keeps :
      (now : ℕ) (d : Bool) (r : ℕ) (nm : NodeManager Db)
      → IsManaged nm
      → Lands (Keeps nm) (close x now d r nm)
  unfolding close
  close-Keeps now d r nm h =
      let n = node_at nm r in
      by_option {A = GoMap ℕ PendingReq} (Lands (Keeps nm)) (close_pending n.pending_reqs) tt
        (λ reqs _.
          let (h', k) = mark_closed-Keeps now reqs r nm h in
          let m = mark_closed x now reqs r nm in
          by_if (Keeps nm) (d && n.has_mgr)
            (λ _. (
              del_node-IsManaged n.nid m h',
              λ e p. ap (λ (q : Node). q.has_mgr) (node_at-del_node n.nid m e.1) ∙ k e p,
            ))
            (λ _. (h', k)))

  pub close_old-Keeps :
      (now : ℕ) (o : Option ℕ) (nm : NodeManager Db)
      → IsManaged nm
      → Lands (Keeps nm) (close_old x now o nm)
  unfolding close_old
  close_old-Keeps now none nm h = (h, λ e p. p)
  close_old-Keeps now (some old) nm h = close-Keeps now false old nm h

  -- Besides the other nodes the entering one has the manager.
  pub enter-IsManaged :
      (r : ℕ) (nm : NodeManager Db)
      → (node_at nm r).has_mgr ≡ true
      → IsManaged nm
      → IsManaged (enter x r nm)
  unfolding enter tell node_at
  enter-IsManaged r nm p h = All-put (HasMgr nm) nm.id_map (node_at nm r).nid r p h

  pub add_node-IsManaged :
      (now r : ℕ) (nm : NodeManager Db) → IsManaged nm → Lands IsManaged (add_node x now r nm)
  unfolding add_node
  add_node-IsManaged now r nm h =
      let n : Node = record (node_at nm r) { has_mgr = true } in
      let nm1 = set_node r n nm in
      let at_r : HasMgr nm1 ("", r) = HasMgr-self nm r n refl in
      Lands-and_then {P = Keeps nm1} IsManaged (close_old x now (get nm1.id_map n.nid) nm1)
        (λ nm2. returns (enter x r nm2))
        (close_old-Keeps now (get nm1.id_map n.nid) nm1 (set_node-IsManaged nm r n (λ _. refl) h))
        (λ nm2 k. enter-IsManaged r nm2 (k.1 ("", r) at_r) k.0)

  pub note_login-IsManaged :
      (now : ℕ) (fresh : String) (r : ℕ) (nid : String) (q : LoginReq) (row : NodeRow)
      (nm : NodeManager Db)
      → IsManaged nm
      → IsManaged (note_login x now fresh r nid q row nm)
  unfolding note_login logged_in node_at set_node
  note_login-IsManaged now fresh r nid q row nm h =
      set_node-IsManaged nm r
        (logged_in now fresh nid q (save_bandwidths x q row nm.db).1 (node_at nm r)) (λ p. p) h

  pub handle_login-IsManaged :
      (now : ℕ) (fresh : String) (r : ℕ) (msg : Message) (nm : NodeManager Db)
      → IsManaged nm
      → Lands (λ q. IsManaged q.0) (handle_login x now fresh r msg nm)
  unfolding handle_login
  handle_login-IsManaged now fresh r msg nm h =
      let P : Outcome (NodeManager Db × Reply) → Type 0 = Lands (λ q. IsManaged q.0) in
      by_option {A = LoginReq} P msg.login h (λ q _.
        by_result P (x.find_node nm.db msg.from) (λ e _. h)
          (λ o _. by_option {A = NodeRow} P o h (λ row _.
            let nm1 = note_login x now fresh r msg.from q row nm in
            Lands-and_then {P = IsManaged} (λ (e : NodeManager Db × Reply). IsManaged e.0)
              (add_node x now r nm1) (λ nm2. returns (nm2, accept (some fresh)))
              (add_node-IsManaged now r nm1 (note_login-IsManaged now fresh r msg.from q row nm h))
              (λ nm2 k. k))))

  pub handle_register-IsManaged :
      (fresh : String) (msg : Message) (nm : NodeManager Db)
      → IsManaged nm
      → IsManaged (handle_register x fresh msg nm).0
  unfolding handle_register node_at
  handle_register-IsManaged fresh msg nm h =
      let P : NodeManager Db × Reply → Type 0 = λ q. IsManaged q.0 in
      by_option {A = String} P msg.register h (λ code _.
        by_option {A = NodeRow} P (or_missing (x.find_node_by_machine_code nm.db code))
          (by_result P (x.insert_node nm.db code fresh) (λ e _. h) (λ db _. h)) (λ row _. h))

  pub handle_request-IsManaged :
      (now : ℕ) (fresh : String) (r : ℕ) (msg : Message) (nm : NodeManager Db)
      → IsManaged nm
      → Lands (λ q. IsManaged q.0) (handle_request x now fresh r msg nm)
  unfolding handle_request
  handle_request-IsManaged now fresh r msg nm h =
      let P : Outcome (NodeManager Db × Reply) → Type 0 = Lands (λ q. IsManaged q.0) in
      let cmd = to_lower msg.cmd in
      by_if P (cmd == "register") (λ _. handle_register-IsManaged fresh msg nm h)
        (λ _.
          by_if P (cmd == "login") (λ _. handle_login-IsManaged now fresh r msg nm h)
            (λ _.
              by_if P (cmd == "keepalive") (λ _. handle_keep_alive-IsManaged r msg nm h)
                (λ _.
                  by_if P (cmd == "transfernotify")
                    (λ _. handle_transfer_notify-IsManaged r msg nm h) (λ _. h))))

  moved-IsManaged :
      (r : ℕ) (row : NodeRow) (nm : NodeManager Db)
      → IsManaged nm
      → IsManaged (
          set_node r
            (record (node_at nm r) { zone_id = row.zone_id })
            (tell (on_node_zone_change r (node_at nm r).zone_id row.zone_id) nm))
  unfolding tell node_at set_node
  moved-IsManaged r row nm h =
      set_node-IsManaged nm r (record (node_at nm r) { zone_id = row.zone_id }) (λ p. p) h

  reload_model-IsManaged :
      (r : ℕ) (nm : NodeManager Db) → IsManaged nm → Lands IsManaged (reload_model x false r nm)
  unfolding reload_model
  reload_model-IsManaged r nm h =
      let n = node_at nm r in
      by_result (Lands IsManaged) (x.find_node nm.db n.nid) (λ e _. h)
        (λ o _. by_option {A = NodeRow} (Lands IsManaged) o tt (λ row _.
          by_if (Lands IsManaged) (row.zone_id == n.zone_id) (λ _. h)
            (λ _.
              by_if (Lands IsManaged) (n.has_mgr && false) (λ _. tt)
                (λ _.
                  by_if (Lands IsManaged) n.has_mgr (λ _. moved-IsManaged r row nm h)
                    (λ _.
                      set_node-IsManaged nm r (record n { zone_id = row.zone_id }) (λ p. p) h)))))

  pub reload_listed-IsManaged :
      (nids : List String) (nm : NodeManager Db)
      → IsManaged nm
      → Lands IsManaged (reload_listed x nids nm)
  unfolding reload_listed
  reload_listed-IsManaged [] nm h = h
  reload_listed-IsManaged (nid ∷ nids) nm h =
      by_option {A = ℕ} (Lands IsManaged) (get_by_nid nm nid) (reload_listed-IsManaged nids nm h)
        (λ r _.
          Lands-and_then {P = IsManaged} IsManaged (reload_model x false r nm)
            (reload_listed x nids) (reload_model-IsManaged r nm h)
            (λ m k. reload_listed-IsManaged nids m k))

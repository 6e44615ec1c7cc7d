-- ===== src/Nodes/Managed.antt =====
-- transfer/node.go: every node that the manager knows has the manager, whatever messages arrive.
use codemigrate.Prelude.{
  ℕ, String, List, [], ◌∷◌, ◌≡◌, ap, ◌∙◌, true, ◌==◌, nat_eq, string_eq, All, by_if, by_option,
  ==_iff, ==_self, ◌&&◌, not,
}
use codemigrate.Prelude.GoMap.{GoMap, get, put, delete}
use codemigrate.TaskTypes.{TaskState}
use codemigrate.Nodes.{
  Outcome, returns, panics, deadlocks, and_then, Node, PendingReq, NodeManager, node_at, set_node,
  del_node, tell, close_pending, new_node_manager, add_observer, verify, get_by_nid, is_logined,
  on_add_node, on_node_zone_change,
}
use codemigrate.Nodes.Messages.{
  Message, Reply, KeepaliveReq, LoginReq, handle_keep_alive, handle_transfer_notify,
  handle_response, send_request, end_request, handle_register, handle_login, handle_request,
  note_login, logged_in, save_bandwidths, accept,
}
use codemigrate.Nodes.Closing.{node_at-set_node}

All-map : {A : Type 0} {P Q : A → Type 0} (l : List A) → ((a : A) → P a → Q a) → All P l → All Q l
All-map [] f h = tt
All-map (a ∷ l) f h = (f a h.0, All-map l f h.1)

pub All-put :
    (P : String × ℕ → Type 0) (m : GoMap String ℕ) (k : String) (v : ℕ)
    → P (k, v)
    → All P m
    → All P (put m k v)
unfolding put
All-put P [] k v p h = (p, tt)
All-put P ((j, w) ∷ m) k v p h =
    by_if (All P) (j == k) (λ _. (p, h.1)) (λ _. (h.0, All-put P m k v p h.1))

All-delete :
    (P : String × ℕ → Type 0) (m : GoMap String ℕ) (k : String) → All P m → All P (delete m k)
unfolding delete
All-delete P [] k h = tt
All-delete P ((j, w) ∷ m) k h =
    by_if (All P) (j == k) (λ _. All-delete P m k h.1) (λ _. (h.0, All-delete P m k h.1))

-- A call that does not return leaves no state.
abbrev pub Lands : {A : Type 0} → (A → Type 0) → Outcome A → Type 0
Lands P (returns a) = P a
Lands P panics = Unit
Lands P deadlocks = Unit

pub Lands-and_then :
    {A B : Type 0} {P : A → Type 0} (Q : B → Type 0) (r : Outcome A) (k : A → Outcome B)
    → Lands P r
    → ((a : A) → P a → Lands Q (k a))
    → Lands Q (and_then r k)
Lands-and_then Q (returns a) k h f = f a h
Lands-and_then Q panics k h f = tt
Lands-and_then Q deadlocks k h f = tt

pub Lands-weaken :
    {A : Type 0} {P Q : A → Type 0} (r : Outcome A) → ((a : A) → P a → Q a) → Lands P r → Lands Q r
Lands-weaken (returns a) f h = f a h
Lands-weaken panics f h = tt
Lands-weaken deadlocks f h = tt

module _ {Db : Type 0} where
  abbrev pub HasMgr : NodeManager Db → String × ℕ → Type 0
  HasMgr nm e = (node_at nm e.1).has_mgr ≡ true

  -- Every node that the manager knows has it as its manager.
  abbrev pub IsManaged : NodeManager Db → Type 0
  IsManaged nm = All (HasMgr nm) nm.id_map

  pub HasMgr-set_node :
      (nm : NodeManager Db) (r : ℕ) (n : Node) (e : String × ℕ)
      → ((node_at nm r).has_mgr ≡ true → n.has_mgr ≡ true)
      → HasMgr nm e
      → HasMgr (set_node r n nm) e
  HasMgr-set_node nm r n e f h =
      ap (λ (k : Node). k.has_mgr) (node_at-set_node nm r e.1 n)
      ∙ by_if (λ (k : Node). k.has_mgr ≡ true) (r == e.1)
          (λ same. f (ap (λ q. (node_at nm q).has_mgr) ((==_iff r e.1).0 same) ∙ h)) (λ _. h)

  pub HasMgr-self :
      (nm : NodeManager Db) (r : ℕ) (n : Node) → n.has_mgr ≡ true → HasMgr (set_node r n nm) ("", r)
  HasMgr-self nm r n e = rw (node_at-set_node nm r r n, ==_self r) e

  pub set_node-IsManaged :
      (nm : NodeManager Db) (r : ℕ) (n : Node)
      → ((node_at nm r).has_mgr ≡ true → n.has_mgr ≡ true)
      → IsManaged nm
      → IsManaged (set_node r n nm)
  unfolding set_node
  set_node-IsManaged nm r n f h = All-map nm.id_map (λ e p. HasMgr-set_node nm r n e f p) h

  pub del_node-IsManaged :
      (nid : String) (nm : NodeManager Db) → IsManaged nm → IsManaged (del_node nid nm)
  unfolding del_node tell node_at
  del_node-IsManaged nid nm h =
      by_option {A = ℕ} IsManaged (get nm.id_map nid) h
        (λ r _. All-delete (HasMgr nm) nm.id_map nid h)

  pub handle_keep_alive-IsManaged :
      (r : ℕ) (msg : Message) (nm : NodeManager Db)
      → IsManaged nm
      → IsManaged (handle_keep_alive r msg nm).0
  unfolding handle_keep_alive codemigrate.Nodes.Messages.kept_alive
  handle_keep_alive-IsManaged r msg nm h =
      let P : NodeManager Db × Reply → Type 0 = λ q. IsManaged q.0 in
      by_if P (not (verify msg.from msg.token (node_at nm r))) (λ _. h)
        (λ _.
          by_option {A = KeepaliveReq} P msg.keepalive h
            (λ q _. set_node-IsManaged nm r _ (λ p. p) h))

  pub handle_transfer_notify-IsManaged :
      (r : ℕ) (msg : Message) (nm : NodeManager Db)
      → IsManaged nm
      → IsManaged (handle_transfer_notify r msg nm).0
  unfolding handle_transfer_notify node_at
  handle_transfer_notify-IsManaged r msg nm h =
      let P : NodeManager Db × Reply → Type 0 = λ q. IsManaged q.0 in
      by_option {A = List TaskState} P msg.transfer_notify h
        (λ states _. by_if IsManaged (node_at nm r).has_mgr (λ _. h) (λ _. h))

  pub handle_response-IsManaged :
      (r seq : ℕ) (nm : NodeManager Db) → IsManaged nm → Lands IsManaged (handle_response r seq nm)
  unfolding handle_response
  handle_response-IsManaged r seq nm h =
      by_option {A = PendingReq} (Lands IsManaged) (get (node_at nm r).pending_reqs seq) h (λ req _.
        by_if (Lands IsManaged) req.is_closed (λ _. tt) (λ _. set_node-IsManaged nm r _ (λ p. p) h))

  pub send_request-IsManaged :
      (r : ℕ) (nm : NodeManager Db) → IsManaged nm → IsManaged (send_request r nm).0
  unfolding send_request
  send_request-IsManaged r nm h = set_node-IsManaged nm r _ (λ p. p) h

  pub end_request-IsManaged :
      (r seq : ℕ) (nm : NodeManager Db) → IsManaged nm → IsManaged (end_request r seq nm)
  unfolding end_request
  end_request-IsManaged r seq nm h =
      by_option {A = PendingReq} IsManaged (get (node_at nm r).pending_reqs seq) h (λ req _.
        by_if IsManaged (req.is_closed && not req.has_rsp) (λ _. h)
          (λ _. set_node-IsManaged nm r _ (λ p. p) h))

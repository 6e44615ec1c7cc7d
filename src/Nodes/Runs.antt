-- ===== src/Nodes/Runs.antt =====
-- transfer/node.go: what holds of the manager after any history of connections.
use codemigrate.Prelude.{
  Option, none, some, by_if, ℕ, String, List, [], ◌∷◌, ◌≡◌, Bool, true, false, inl, inr, subst,
}
use codemigrate.Nodes.{
  Outcome, returns, and_then, NodeManager, new_node_manager, add_observer, node_at,
}
use codemigrate.Nodes.Rows.{NodeEngine}
use codemigrate.Nodes.Sessions.{close, reload_node_model}
use codemigrate.Nodes.Messages.{
  Message, Reply, handle_msg, handle_request, handle_response, send_request, end_request,
}
use codemigrate.Nodes.Reloading.{IsIdle, reload_node_model-IsIdle}
use codemigrate.Nodes.Managed.{
  Lands, Lands-and_then, Lands-weaken, IsManaged, handle_response-IsManaged, send_request-IsManaged,
  end_request-IsManaged,
}
use codemigrate.Nodes.Kept.{Keeps, close-Keeps, handle_request-IsManaged, reload_listed-IsManaged}

-- What happens to the manager: a message arrives on a connection, a connection ends,
-- the program asks a node and stops waiting, and rows are read again.
pub data NodeCall : Type 0 where
  message_call : (now : ℕ) → (fresh : String) → (node : ℕ) → Message → NodeCall
  ask_end_call : (node seq : ℕ) → NodeCall
  ask_call : (node : ℕ) → NodeCall
  disconnect_call : (now node : ℕ) → NodeCall
  reload_call : (all : Bool) → List String → NodeCall
  observe_call : NodeCall

module _ (x : NodeEngine) where
  open x use {Db}

  abbrev replied : Outcome (NodeManager Db × Option Reply) → Outcome (NodeManager Db)
  replied r = and_then r (λ q. returns q.0)

  unfoldable pub serve : NodeCall → NodeManager Db → Outcome (NodeManager Db)
  serve (message_call now fresh r msg) nm = replied (handle_msg x now fresh r msg nm)
  serve (ask_end_call r seq) nm = returns (end_request r seq nm)
  serve (ask_call r) nm = returns (send_request r nm).0
  serve (disconnect_call now r) nm = close x now true r nm
  serve (reload_call all nids) nm = reload_node_model x all nids nm
  serve observe_call nm = returns (add_observer nm)

  unfoldable pub run : List NodeCall → NodeManager Db → Outcome (NodeManager Db)
  run [] nm = returns nm
  run (call ∷ calls) nm = and_then (serve call nm) (run calls)

  idle-IsManaged :
      (nm : NodeManager Db) (r : Outcome (NodeManager Db))
      → IsManaged nm
      → IsIdle x nm r
      → Lands IsManaged r
  idle-IsManaged nm r h i = elim i [
    | inl e ↦ rw e h
    | inr (inl e) ↦ rw e tt
    | inr (inr e) ↦ rw e tt
  ]

  handle_msg-IsManaged :
      (now : ℕ) (fresh : String) (r : ℕ) (msg : Message) (nm : NodeManager Db)
      → IsManaged nm
      → Lands (λ q. IsManaged q.0) (handle_msg x now fresh r msg nm)
  unfolding handle_msg
  handle_msg-IsManaged now fresh r msg nm h =
      let Q : NodeManager Db × Option Reply → Type 0 = λ q. IsManaged q.0 in
      by_if (Lands Q) msg.is_req
        (λ _.
          Lands-and_then {P = λ (q : NodeManager Db × Reply). IsManaged q.0} Q
            (handle_request x now fresh r msg nm) (λ q. returns (q.0, some q.1))
            (handle_request-IsManaged x now fresh r msg nm h) (λ q k. k))
        (λ _.
          Lands-and_then {P = IsManaged} Q (handle_response r msg.seq nm) (λ m. returns (m, none))
            (handle_response-IsManaged r msg.seq nm h) (λ m k. k))

  serve-IsManaged :
      (call : NodeCall) (nm : NodeManager Db) → IsManaged nm → Lands IsManaged (serve call nm)
  unfolding serve reload_node_model add_observer node_at
  serve-IsManaged (message_call now fresh r msg) nm h =
      Lands-and_then {P = λ (q : NodeManager Db × Option Reply). IsManaged q.0} IsManaged
        (handle_msg x now fresh r msg nm) (λ q. returns q.0)
        (handle_msg-IsManaged now fresh r msg nm h) (λ q k. k)
  serve-IsManaged (ask_end_call r seq) nm h = end_request-IsManaged r seq nm h
  serve-IsManaged (ask_call r) nm h = send_request-IsManaged r nm h
  serve-IsManaged (disconnect_call now r) nm h =
      Lands-weaken {P = Keeps x nm} (close x now true r nm) (λ m k. k.0)
        (close-Keeps x now true r nm h)
  serve-IsManaged (reload_call true nids) nm h =
      idle-IsManaged nm _ h (reload_node_model-IsIdle x nids nm h)
  serve-IsManaged (reload_call false nids) nm h = reload_listed-IsManaged x nids nm h
  serve-IsManaged observe_call nm h = h

  run-IsManaged :
      (calls : List NodeCall) (nm : NodeManager Db) → IsManaged nm → Lands IsManaged (run calls nm)
  unfolding run
  run-IsManaged [] nm h = h
  run-IsManaged (call ∷ calls) nm h =
      Lands-and_then {P = IsManaged} IsManaged (serve call nm) (run calls)
        (serve-IsManaged call nm h) (λ m k. run-IsManaged calls m k)

  -- After any history of messages, requests, closed connections and reloads that did not end the program,
  -- the reload of all nodes has no effect: it returns with everything as it was, dies on a missing row,
  -- or waits for ever for the mutex that it holds.
  pub run_reload :
      (calls : List NodeCall) (db : Db) (nm : NodeManager Db) (nids : List String)
      → run calls (new_node_manager db) ≡ returns nm
      → IsIdle x nm (reload_node_model x true nids nm)
  run_reload calls db nm nids e =
      reload_node_model-IsIdle x nids nm
        (subst (Lands IsManaged) e (run-IsManaged calls (new_node_manager db) tt))

-- ===== src/Nodes/Messages.antt =====
-- transfer/node.go: the messages of a node. A message keeps what the handlers read; a part of the
-- request that is nil is `none`.
use codemigrate.Prelude.{
  ℕ, ◌+◌, ◌%◌, ◌^◌, String, List, [], ◌∷◌, ◌++◌, Option, none, some, Bool, true, false, not, ◌&&◌,
  ◌==◌, nat_eq, string_eq, if◌then◌else◌,
}
use codemigrate.Prelude.Text.{to_lower}
use codemigrate.Prelude.GoMap.{get, put, delete}
use codemigrate.Errors.{ok, err}
use codemigrate.TaskTypes.{TaskState}
use codemigrate.Models.Engine.{or_missing}
use codemigrate.Nodes.{
  Outcome, returns, panics, and_then, Node, NodeManager, node_at, set_node, verify, is_logined,
}
use codemigrate.Nodes.Rows.{NodeRow, NodeEngine}
use codemigrate.Nodes.Sessions.{add_node}

pub record LoginReq : Type 0 where
  pub total_storage : ℕ
  pub free_storage : ℕ
  pub rx_bandwidth : ℕ
  pub tx_bandwidth : ℕ

pub record KeepaliveReq : Type 0 where
  pub total_storage : ℕ
  pub free_storage : ℕ
  pub rx_bandwidth : ℕ
  pub tx_bandwidth : ℕ

pub record Message : Type 0 where
  pub is_req : Bool
  pub cmd : String
  pub from : String
  pub token : String
  pub seq : ℕ
  pub register : Option String
  pub login : Option LoginReq
  pub keepalive : Option KeepaliveReq
  pub transfer_notify : Option (List TaskState)

-- The codes of `cydex` that a response carries.
pub data Code : Type 0 where
  ok_code inner_server invalid_param invalid_license : Code

-- A response with the error that the handler returns; an error ends the connection.
pub record Reply : Type 0 where
  pub code : Code
  pub failed : Bool
  pub value : Option String

abbrev pub refuse : Code → Reply
refuse c = record { code = c; failed = true; value = none }

abbrev pub accept : Option String → Reply
accept v = record { code = ok_code; failed = false; value = v }

-- What a login writes into the node; `fresh` is the new token.
unfoldable pub logged_in : ℕ → String → String → LoginReq → NodeRow → Node → Node
logged_in now fresh nid q row n = record n {
  nid = nid;
  zone_id = row.zone_id;
  token = fresh;
  login_at = now;
  info = record (n.info) {
    total_storage = q.total_storage;
    free_storage = q.free_storage;
    rx_bandwidth = row.rx_bandwidth;
    tx_bandwidth = row.tx_bandwidth;
  };
}

unfoldable pub kept_alive : KeepaliveReq → Node → Node
kept_alive q n = record n {
  info = record (n.info) {
    total_storage = q.total_storage;
    free_storage = q.free_storage;
    rx_bandwidth = q.rx_bandwidth;
    tx_bandwidth = q.tx_bandwidth;
  };
}

module _ {Db : Type 0} where
  unfoldable pub handle_keep_alive : ℕ → Message → NodeManager Db → NodeManager Db × Reply
  handle_keep_alive r msg nm =
      let n = node_at nm r in
      if not (verify msg.from msg.token n)
      then (nm, refuse invalid_license)
      else elim msg.keepalive [
        | none ↦ (nm, refuse invalid_param)
        | some q ↦ (set_node r (kept_alive q n) nm, accept none)
      ]

  -- `handleTransferNotify`: a failed verification is answered, and the states are taken all the same.
  unfoldable pub handle_transfer_notify : ℕ → Message → NodeManager Db → NodeManager Db × Reply
  handle_transfer_notify r msg nm =
      let n = node_at nm r in
      let bad = not (verify msg.from msg.token n) in
      elim msg.transfer_notify [
        | none ↦ (nm, record { code = invalid_param; failed = bad; value = none })
        | some states ↦ (
          if n.has_mgr then record nm { state_chan = nm.state_chan ++ states ∷ [] } else nm,
          if bad then refuse invalid_license else accept none,
        )
      ]

  -- The response half of `HandleMsg`: the waiting request is signalled. To signal a closed channel is a
  -- panic; a second signal waits until the first is taken and changes nothing else.
  unfoldable pub handle_response : ℕ → ℕ → NodeManager Db → Outcome (NodeManager Db)
  handle_response r seq nm =
      let n = node_at nm r in
      elim (get n.pending_reqs seq) [
        | none ↦ returns nm
        | some req ↦
            if req.is_closed
            then panics
            else returns (
                set_node r
                  (record n {
                    pending_reqs = put n.pending_reqs seq (record req { has_rsp = true });
                  })
                  nm)
      ]

  -- `SendRequest`: the number of the request, or the error of a closed connection. `seq` is a `uint32`.
  unfoldable pub send_request : ℕ → NodeManager Db → NodeManager Db × Option ℕ
  send_request r nm =
      let n = node_at nm r in
      (
        set_node r
            (record n {
              seq = (n.seq + 1) % 2 ^ 32;
              pending_reqs =
                  put n.pending_reqs n.seq (record { has_rsp = false; is_closed = false });
            })
            nm,
        if n.closed then none else some n.seq,
      )

  -- The end of `SendRequestSync`: an answer and a time-out drop the request, a closed channel does not.
  unfoldable pub end_request : ℕ → ℕ → NodeManager Db → NodeManager Db
  end_request r seq nm =
      let n = node_at nm r in
      elim (get n.pending_reqs seq) [
        | none ↦ nm
        | some req ↦
            if req.is_closed && not req.has_rsp
            then nm
            else set_node r (record n { pending_reqs = delete n.pending_reqs seq }) nm
      ]

module _ (x : NodeEngine) where
  open x use {
    Db, find_node, find_node_by_machine_code, insert_node, save_rx_bandwidth, save_tx_bandwidth,
    save_login_time,
  }

  -- `handleRegister` and `registerNode`; `fresh` is the new id of `uuid.New`.
  unfoldable pub handle_register : String → Message → NodeManager Db → NodeManager Db × Reply
  handle_register fresh msg nm = elim msg.register [
    | none ↦ (nm, refuse invalid_param)
    | some machine_code ↦ elim (or_missing (find_node_by_machine_code nm.db machine_code)) [
      | some row ↦ (nm, if row.nid == "" then refuse ok_code else accept (some row.nid))
      | none ↦ elim (insert_node nm.db machine_code fresh) [
        | err e ↦ (nm, refuse ok_code)
        | ok db ↦
            (record nm { db = db }, if fresh == "" then refuse ok_code else accept (some fresh))
      ]
    ]
  ]

  unfoldable pub save_bandwidths : LoginReq → NodeRow → Db → Db × NodeRow
  save_bandwidths q row db =
      let no_rx = row.rx_bandwidth == 0 in
      let no_tx = row.tx_bandwidth == 0 in
      let db1 = if no_rx then save_rx_bandwidth db row q.rx_bandwidth else db in
      let row1 = if no_rx then record row { rx_bandwidth = q.rx_bandwidth } else row in
      let db2 = if no_tx then save_tx_bandwidth db1 row1 q.tx_bandwidth else db1 in
      (db2, if no_tx then record row1 { tx_bandwidth = q.tx_bandwidth } else row1)

  abbrev pub log_in : ℕ → String → Db → Db
  log_in now nid db = elim (or_missing (find_node db nid)) [
    | none ↦ db
    | some row ↦ save_login_time db row now
  ]

  -- The part of `handleLogin` before the manager is told.
  unfoldable pub note_login :
      ℕ → String → ℕ → String → LoginReq → NodeRow → NodeManager Db → NodeManager Db
  unfolding save_bandwidths logged_in
  note_login now fresh r nid q row nm =
      let (db, row') = save_bandwidths q row nm.db in
      let n = logged_in now fresh nid q row' (node_at nm r) in
      set_node r n (record nm { db = if is_logined n then log_in now n.nid db else db })

  -- `handleLogin` of the node `r`.
  unfoldable pub handle_login :
      ℕ → String → ℕ → Message → NodeManager Db → Outcome (NodeManager Db × Reply)
  unfolding note_login
  handle_login now fresh r msg nm = elim msg.login [
    | none ↦ returns (nm, refuse invalid_param)
    | some q ↦ elim (find_node nm.db msg.from) [
      | err e ↦ returns (nm, refuse ok_code)
      | ok none ↦ returns (nm, refuse invalid_param)
      | ok (some row) ↦
          and_then (add_node x now r (note_login now fresh r msg.from q row nm))
            (λ nm1. returns (nm1, accept (some fresh)))
    ]
  ]

  -- The request half of `HandleMsg`. `Update` after it only moves the connection's deadline.
  unfoldable pub handle_request :
      ℕ → String → ℕ → Message → NodeManager Db → Outcome (NodeManager Db × Reply)
  unfolding handle_register handle_login handle_keep_alive handle_transfer_notify
  handle_request now fresh r msg nm =
      let cmd = to_lower msg.cmd in
      if cmd == "register"
      then returns (handle_register fresh msg nm)
      else if cmd == "login"
      then handle_login now fresh r msg nm
      else if cmd == "keepalive"
      then returns (handle_keep_alive r msg nm)
      else if cmd == "transfernotify"
      then returns (handle_transfer_notify r msg nm)
      else returns (nm, record { code = invalid_param; failed = false; value = none })

  -- `HandleMsg`, with the response that goes back to a request.
  unfoldable pub handle_msg :
      ℕ → String → ℕ → Message → NodeManager Db → Outcome (NodeManager Db × Option Reply)
  unfolding handle_request handle_response
  handle_msg now fresh r msg nm =
      if msg.is_req
      then and_then (handle_request now fresh r msg nm) (λ q. returns (q.0, some q.1))
      else and_then (handle_response r msg.seq nm) (λ m. returns (m, none))

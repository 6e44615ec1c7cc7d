-- ===== src/Examples/Connecting.antt =====
-- Nodes that log in, move and disconnect.
use codemigrate.Prelude.{◌⊎◌, [], ◌∷◌, ◌≡◌, refl, none, some, true, false}
use codemigrate.Prelude.GoMap.{get}
use codemigrate.Errors.{ok}
use codemigrate.Nodes.{
  Outcome, returns, panics, deadlocks, Node, NodeManager, PendingReq, new_node, new_node_manager,
  node_at, set_node, get_by_nid, is_online, close_pending, verify,
}
use codemigrate.Nodes.Rows.{NodeEngine}
use codemigrate.Nodes.Sessions.{close, add_node, reload_node_model}
use codemigrate.Nodes.Messages.{
  Message, refuse, invalid_license, handle_msg, handle_transfer_notify,
}
use codemigrate.Nodes.Closing.{close_twice}
use codemigrate.Nodes.Logins.{login_again}
use codemigrate.Nodes.Reloading.{IsIdle}
use codemigrate.Nodes.Runs.{NodeCall, message_call, run, run_reload}
use codemigrate.Nodes.Trust.{Untrusted, sender_of_message}

-- A database in which every node is in the zone "z".
abbrev pub engine : NodeEngine
engine = record {
  Db = Unit;
  find_node = λ db nid. ok (
      some (record {
        nid = nid;
        zone_id = "z";
        name = "";
        public_addr = "";
        machine_code = "m";
        rx_bandwidth = 1;
        tx_bandwidth = 1;
      }));
  find_node_by_machine_code = λ db code. ok none;
  insert_node = λ db code nid. ok db;
  save_rx_bandwidth = λ db row v. db;
  save_tx_bandwidth = λ db row v. db;
  save_login_time = λ db row v. db;
  save_logout_time = λ db row v. db;
}

abbrev pub old_node : Node
old_node = record {
  nid = "n";
  zone_id = "y";
  token = "t";
  info = record {
    total_storage = 9;
    free_storage = 9;
    rx_bandwidth = 1;
    tx_bandwidth = 1;
    upload_task_cnt = 0;
    download_task_cnt = 0;
  };
  login_at = 1;
  seq = 0;
  pending_reqs = [];
  closed = false;
  has_mgr = true;
}

-- The node "n" is connected at 1, and logs in on a new connection at 2.
abbrev connected : NodeManager Unit
connected = record (new_node_manager tt) {
  nodes = (1, old_node) ∷ (2, record old_node { has_mgr = false }) ∷ [];
  id_map = ("n", 1) ∷ [];
}

abbrev open_req : PendingReq
open_req = record { has_rsp = false; is_closed = false }

abbrev waiting : NodeManager Unit
waiting = record connected {
  nodes = (1, record old_node { pending_reqs = (0, open_req) ∷ [] }) ∷ [];
}

close_twice_example :
    (nm' : NodeManager Unit) × (close engine 5 false 1 waiting ≡ returns nm')
    × (close engine 6 true 1 nm' ≡ panics)
unfolding node_at get close_pending
close_twice_example =
    close_twice engine 5 6 false true 1 waiting ((0, record open_req { is_closed = true }) ∷ [])
      (λ e. cc) refl

login_again_example :
    (nm1 nm2 : NodeManager Unit) × (add_node engine 5 2 connected ≡ returns nm1)
    × (get_by_nid nm1 "n" ≡ some 2)
    × (close engine 6 true 1 nm1 ≡ returns nm2)
    × (is_online nm2 "n" ≡ false)
unfolding get_by_nid get node_at
login_again_example = login_again engine 5 6 "n" 2 1 connected (record {
  known = refl;
  other = refl;
  new_nid = refl;
  old_nid = refl;
  managed = refl;
  idle = refl;
})

reload_test : reload_node_model engine true [] connected ≡ deadlocks
unfolding reload_node_model codemigrate.Nodes.Sessions.reload_model node_at get
reload_test = refl

abbrev login : Message
login = record {
  is_req = true;
  cmd = "Login";
  from = "n";
  token = "";
  seq = 0;
  register = none;
  login = some (record { total_storage = 9; free_storage = 8; rx_bandwidth = 7; tx_bandwidth = 6 });
  keepalive = none;
  transfer_notify = none;
}

abbrev after_login : NodeManager Unit
after_login = record (new_node_manager tt) {
  nodes =
      (
        1,
        record old_node {
          zone_id = "z";
          info = record (old_node.info) { free_storage = 8 };
          login_at = 5;
        },
      )
      ∷ [];
  id_map = ("n", 1) ∷ [];
}

run_test : run engine (message_call 5 "t" 1 login ∷ []) (new_node_manager tt) ≡ returns after_login
unfolding run codemigrate.Nodes.Runs.serve codemigrate.Nodes.Messages.handle_request
    codemigrate.Prelude.Text.to_lower add_node get set_node codemigrate.Nodes.tell
    codemigrate.Prelude.GoMap.put codemigrate.Nodes.is_logined node_at new_node
    codemigrate.Nodes.Messages.handle_msg
run_test = refl

run_reload_example : IsIdle engine after_login (reload_node_model engine true [] after_login)
run_reload_example = run_reload engine (message_call 5 "t" 1 login ∷ []) tt after_login [] run_test

abbrev forged : Message
forged = record {
  is_req = true;
  cmd = "TransferNotify";
  from = "n";
  token = "x";
  seq = 0;
  register = none;
  login = none;
  keepalive = none;
  transfer_notify = some [];
}

sender_of_message_example :
    ((verify "n" "x" (node_at connected 1) ≡ true)
      ⊎ Untrusted forged connected (handle_msg engine 5 "t" 1 forged connected))
    × ((handle_transfer_notify 1 (record forged { from = "m"; token = "t" }) connected).0
        ≡ (handle_transfer_notify 1 forged connected).0)
unfolding codemigrate.Prelude.Text.to_lower
sender_of_message_example = sender_of_message engine 5 "t" 1 forged "m" "t" connected refl refl refl

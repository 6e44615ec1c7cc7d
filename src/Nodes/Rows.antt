-- ===== src/Nodes/Rows.antt =====
-- The queries and writes of transfer/models/node.go, which the database engine answers: a parameter.
use codemigrate.Prelude.{ℕ, String, Option}
use codemigrate.Errors.{Result}

-- A row of `transfer_node`, as far as it is read.
pub record NodeRow : Type 0 where
  pub nid : String
  pub zone_id : String
  pub name : String
  pub public_addr : String
  pub machine_code : String
  pub rx_bandwidth : ℕ
  pub tx_bandwidth : ℕ

-- A write whose error its caller drops is a function of the database alone.
pub record NodeEngine : Type 1 where
  pub Db : Type 0
  pub find_node : Db → String → Result (Option NodeRow)
  pub find_node_by_machine_code : Db → String → Result (Option NodeRow)
  pub insert_node : Db → (machine_code nid : String) → Result Db
  pub save_rx_bandwidth : Db → NodeRow → ℕ → Db
  pub save_tx_bandwidth : Db → NodeRow → ℕ → Db
  pub save_login_time : Db → NodeRow → ℕ → Db
  pub save_logout_time : Db → NodeRow → ℕ → Db

-- ===== src/Api/Statistics.antt =====
-- api/controllers/statistics.go: an administrator asks for the statistics of transfers.
use codemigrate.Prelude.{
  String, List, [], ◌∷◌, ◌≡◌, refl, Option, none, some, true, ◌==◌, string_eq, if◌then◌else◌,
}
use codemigrate.Cydex.{upload, download}
use codemigrate.Errors.{Error, Result, ok, err}
use codemigrate.Nodes.{Outcome, returns, panics, and_then}
use codemigrate.Stats.{Traffic, Transfer, StatsEngine}
use codemigrate.Stats.Totals.{
  stat_of, get_stat, get_node_stat, columns, IsTotals, stat_of-upload, stat_of-download,
}
use codemigrate.Api.{UserLevel, is_admin, Code, fine, not_allowed, inner_server}

-- `cydex.QueryStatisticsTransferRsp`.
pub record StatRsp : Type 0 where
  pub error : Code
  pub rx_stat : Option Traffic
  pub tx_stat : Option Traffic

abbrev pub no_stat : Code → StatRsp
no_stat c = record { error = c; rx_stat = none; tx_stat = none }

-- Both statistics, or an error if one is nil.
abbrev both_stats : Option Traffic → Option Traffic → StatRsp
both_stats none tx = no_stat inner_server
both_stats (some rx) none = no_stat inner_server
both_stats (some rx) (some tx) = record { error = fine; rx_stat = some rx; tx_stat = some tx }

-- The second query follows only if the first has a result.
abbrev outline_of : Outcome (Option Traffic) → Outcome (Option Traffic) → Outcome StatRsp
outline_of rx tx = and_then rx (λ r. elim r [
  | none ↦ returns (no_stat inner_server)
  | some c ↦ and_then tx (λ t. returns (both_stats (some c) t))
])

module _ (x : StatsEngine) where
  unfoldable pub get_outline : x.Db → Outcome StatRsp
  unfolding get_stat
  get_outline db = outline_of (get_stat x upload db) (get_stat x download db)

  unfoldable pub get_single : String → x.Db → StatRsp
  unfolding get_node_stat
  get_single node_id db =
      both_stats (get_node_stat x node_id upload db) (get_node_stat x node_id download db)

  -- `StatTransferController.Get`.
  unfoldable pub get_transfer_stat : UserLevel → String → x.Db → Outcome StatRsp
  unfolding get_outline get_single
  get_transfer_stat level node_id db =
      if is_admin level
      then if node_id == "" then get_outline db else returns (get_single node_id db)
      else returns (no_stat not_allowed)

-- How a query that names no node ends, given what the rows are.
pub data OutlineCase (found : Result (List Transfer)) (r : Outcome StatRsp) : Type 0 where
  unread : (e : Error) → found ≡ err e → r ≡ returns (no_stat inner_server) → OutlineCase found r
  no_rows : found ≡ ok [] → r ≡ panics → OutlineCase found r
  totals :
      (ts : List Transfer) (rx tx : Traffic)
      → found ≡ ok ts
      → r ≡ returns (record { error = fine; rx_stat = some rx; tx_stat = some tx })
      → IsTotals (columns upload ts) rx
      → IsTotals (columns download ts) tx
      → OutlineCase found r

outline_of-OutlineCase :
    (found : Result (List Transfer))
    → OutlineCase found (outline_of (stat_of upload found) (stat_of download found))
unfolding stat_of
outline_of-OutlineCase (err e) = unread e refl refl
outline_of-OutlineCase (ok []) = no_rows refl refl
outline_of-OutlineCase (ok (t ∷ ts)) =
    let (rx, e, h) = stat_of-upload t ts in
    let (tx, e', h') = stat_of-download t ts in totals (t ∷ ts) rx tx refl (rw (e, e') refl) h h'

-- The statistics that an administrator gets who names no node: an error if the rows cannot be read, a panic
-- if there are none, and else, for received and for sent bytes, the sums modulo 2 ^ 64 of bytes and tasks,
-- the mean of the averages, the greatest bitrate, and the least one that is not zero.
pub get_transfer_stat-OutlineCase :
    (x : StatsEngine) (level : UserLevel) (db : x.Db)
    → is_admin level ≡ true
    → OutlineCase (x.find_transfers db) (get_transfer_stat x level "" db)
unfolding get_transfer_stat
get_transfer_stat-OutlineCase x level db h = rw h (outline_of-OutlineCase (x.find_transfers db))

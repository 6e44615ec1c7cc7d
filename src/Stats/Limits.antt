-- ===== src/Stats/Limits.antt =====
-- statistics/stat_transfer.go: what holds of the rows after any history of tasks.
use native.Mathlib.Nat.{div-le_of_le-mul, mod-le, mul-le-mul_right, suc-mul}
use codemigrate.Prelude.{
  ℕ, zero, suc, ◌+◌, ◌-◌, ◌*◌, ◌/◌, ◌%◌, ◌^◌, ◌≤◌, ◌<◌, ◌≡◌, ap, ◌⊎◌, inl, inr, String, List,
  Option, some, ltb, nat_eq, string_eq, arith, if◌then◌else◌, subst,
}
use codemigrate.Cydex.{TransferType, upload, download, unknown}
use codemigrate.Errors.{Result, ok, err, by_result}
use codemigrate.Models.Engine.{or_missing}
use codemigrate.Stats.{
  Traffic, no_traffic, Transfer, traffic_of, with_traffic, StatsEngine, add_rates, calc_min_max_avg,
  new_transfer, new_transfer_with_id,
}
use codemigrate.Stats.Rates.{calc_min_max_avg-IsRates}

-- Neither the least nor the average bitrate is above the greatest.
pub record IsWithin (c : Traffic) : Type 0 where
  pub least : c.min_bitrate ≤ c.max_bitrate
  pub average : c.avg_bitrate ≤ c.max_bitrate

abbrev pub BothWithin : Transfer → Type 0
BothWithin t = IsWithin t.rx × IsWithin t.tx

mean_le :
    (n old new top : ℕ) → 1 < n → old ≤ top → new ≤ top → ((old * (n - 1) + new) % 2 ^ 64) / n ≤ top
mean_le zero old new top h p q = absurd (omega arith)
mean_le (suc k) old new top h p q =
    let sum = old * (suc k - 1) + new in
    let below : old * (suc k - 1) ≤ top * (suc k - 1) = mul-le-mul_right (suc k - 1) p in
    let same : top * (suc k - 1) ≡ k * top = grind arith in
    div-le_of_le-mul (suc k) {m = sum % 2 ^ 64} {n = top}
      (omega (arith, mod-le sum (2 ^ 64), below, same, q, suc-mul k top))

pub add_rates-IsWithin :
    (bytes : ℕ) (l : List ℕ) (c : Traffic)
    → IsWithin c
    → IsWithin (add_rates bytes (calc_min_max_avg l) c)
unfolding add_rates
add_rates-IsWithin bytes l c w =
    let r = calc_min_max_avg-IsRates l in
    let hi = (calc_min_max_avg l).0 in
    let top = if ltb c.max_bitrate hi then hi else c.max_bitrate in
    record {
      least = ground (arith, r.ordered, w.least);
      average =
          ground
            (arith, r.average, w.average, mean_le c.tasks c.avg_bitrate (calc_min_max_avg l).2 top);
    }

pub with_traffic-BothWithin :
    (typ : TransferType) (c : Traffic) (t : Transfer)
    → BothWithin t
    → IsWithin c
    → BothWithin (with_traffic typ c t)
with_traffic-BothWithin upload c t b w = (w, b.1)
with_traffic-BothWithin download c t b w = (b.0, w)
with_traffic-BothWithin (unknown k) c t b w = b

pub traffic_of-IsWithin :
    (typ : TransferType) (c : Traffic) (t : Transfer)
    → BothWithin t
    → traffic_of typ t ≡ some c
    → IsWithin c
traffic_of-IsWithin upload c t b e = subst IsWithin (cc e) b.0
traffic_of-IsWithin download c t b e = subst IsWithin (cc e) b.1
traffic_of-IsWithin (unknown k) c t b e = cc

pub no_traffic-IsWithin : IsWithin no_traffic
no_traffic-IsWithin = record { least = omega arith; average = omega arith }

pub ok_of_found :
    (r : Result (Option Transfer)) (t : Transfer) → or_missing r ≡ some t → r ≡ ok (some t)
ok_of_found (ok o) t e = ap ok e
ok_of_found (err e') t e = cc

-- What the database engine promises: a row that is found after a write is the written one, or one that
-- was found before. Writes may fail.
pub record KeepsRows (x : StatsEngine) : Type 0 where
  pub find_updated :
      (db : x.Db) (t : Transfer) (k : String) (r : Transfer)
      → x.find_transfer (x.update_transfer db t) k ≡ ok (some r)
      → (x.find_transfer db k ≡ ok (some r)) ⊎ (r ≡ t)
  pub find_inserted :
      (db db' : x.Db) (t : Transfer) (k : String) (r : Transfer)
      → x.insert_transfer db t ≡ ok db'
      → x.find_transfer db' k ≡ ok (some r)
      → (x.find_transfer db k ≡ ok (some r)) ⊎ (r ≡ t)

module _ (x : StatsEngine) where
  open x use {Db, find_transfer, update_transfer, insert_transfer}

  -- Every row that can be found is within its limits.
  abbrev pub AllWithin : Db → Type 0
  AllWithin db = (k : String) (r : Transfer) → find_transfer db k ≡ ok (some r) → BothWithin r

  module _ (laws : KeepsRows x) where
    pub updated-AllWithin :
        (db : Db) (t : Transfer) → AllWithin db → BothWithin t → AllWithin (update_transfer db t)
    updated-AllWithin db t a b k r e = elim (laws.find_updated db t k r e) [
      | inl old ↦ a k r old
      | inr same ↦ rw same b
    ]

    pub new-AllWithin :
        (db : Db) (node_id : String)
        → AllWithin db
        → AllWithin (new_transfer_with_id x db node_id).0
    unfolding new_transfer_with_id
    new-AllWithin db node_id a =
        by_result (λ (q : Db × Option Transfer). AllWithin q.0)
          (insert_transfer db (new_transfer node_id)) (λ e _. a)
          (λ db' e k r f. elim (laws.find_inserted db db' (new_transfer node_id) k r e f) [
            | inl old ↦ a k r old
            | inr same ↦ rw same (no_traffic-IsWithin, no_traffic-IsWithin)
          ])

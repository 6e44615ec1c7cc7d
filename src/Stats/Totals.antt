-- ===== src/Stats/Totals.antt =====
-- statistics/stat_transfer.go: the statistics that the api asks for, of all nodes and of one.
use mathlib.Core.List.{Memᴰ}
use codemigrate.Prelude.{
  ◌⊎◌, inl, inr, by_if, mem_of_either, either_of, ℕ, suc, subst, ◌+◌, ◌/◌, ◌%◌, ◌^◌, ◌≤◌, ◌≡◌, refl,
  ap, String, List, [], ◌∷◌, map, Option, none, some, ◌&&◌, ltb, ◌==◌, nat_eq, length,
  if◌then◌else◌, All, arith,
}
use codemigrate.Cydex.{TransferType, upload, download, unknown}
use codemigrate.Errors.{Error, Result, ok, err}
use codemigrate.Models.Engine.{or_missing}
use codemigrate.Nodes.{Outcome, returns, panics}
use codemigrate.Nodes.Storage.{Below}
use codemigrate.Stats.{Traffic, Transfer, StatsEngine, traffic_of}

-- The loop of `GetStat` after the first row: a nil pointer is read if the type is unknown.
unfoldable pub add_row : Traffic → Traffic → Traffic
add_row acc c = record {
  total_bytes = (acc.total_bytes + c.total_bytes) % 2 ^ 64;
  max_bitrate = if ltb acc.max_bitrate c.max_bitrate then c.max_bitrate else acc.max_bitrate;
  min_bitrate =
      if acc.min_bitrate == 0
      then c.min_bitrate
      else if ltb 0 c.min_bitrate && ltb c.min_bitrate acc.min_bitrate
      then c.min_bitrate
      else acc.min_bitrate;
  avg_bitrate = (acc.avg_bitrate + c.avg_bitrate) % 2 ^ 64;
  tasks = (acc.tasks + c.tasks) % 2 ^ 64;
}

unfoldable pub add_rows : TransferType → List Transfer → Traffic → Option Traffic
unfolding add_row
add_rows typ [] acc = some acc
add_rows typ (t ∷ ts) acc = elim (traffic_of typ t) [
  | none ↦ none
  | some c ↦ add_rows typ ts (add_row acc c)
]

unfoldable pub first_row : Traffic → Traffic
first_row c = record c {
  total_bytes = c.total_bytes % 2 ^ 64;
  avg_bitrate = c.avg_bitrate % 2 ^ 64;
  tasks = c.tasks % 2 ^ 64;
}

abbrev pub mean_of : ℕ → Traffic → Traffic
mean_of n c = record c { avg_bitrate = c.avg_bitrate / n }

-- `GetStat` on what the query returns: with no row the number of nodes that a sum is divided by is zero.
unfoldable pub stat_of : TransferType → Result (List Transfer) → Outcome (Option Traffic)
unfolding add_rows first_row
stat_of typ (err e) = returns none
stat_of typ (ok []) = panics
stat_of typ (ok (t ∷ ts)) = elim (traffic_of typ t) [
  | none ↦ panics
  | some c ↦ elim (add_rows typ ts (first_row c)) [
    | none ↦ panics
    | some sum ↦ returns (some (mean_of (length (t ∷ ts)) sum))
  ]
]

module _ (x : StatsEngine) where
  open x use {Db, find_transfer, find_transfers}

  -- `GetStat`.
  unfoldable pub get_stat : TransferType → Db → Outcome (Option Traffic)
  unfolding stat_of
  get_stat typ db = stat_of typ (find_transfers db)

  -- `GetNodeStat`.
  unfoldable pub get_node_stat : String → TransferType → Db → Option Traffic
  get_node_stat node_id typ db = elim (or_missing (find_transfer db node_id)) [
    | none ↦ none
    | some t ↦ traffic_of typ t
  ]

-- The columns that a query for a type reads: none if the type is unknown.
abbrev pub columns : TransferType → List Transfer → List Traffic
columns upload ts = map (λ t. t.rx) ts
columns download ts = map (λ t. t.tx) ts
columns (unknown k) ts = []

abbrev add_all : List Traffic → Traffic → Traffic
add_all [] acc = acc
add_all (c ∷ cs) acc = add_all cs (add_row acc c)

add_rows-upload :
    (ts : List Transfer) (acc : Traffic)
    → add_rows upload ts acc ≡ some (add_all (columns upload ts) acc)
unfolding add_rows
add_rows-upload [] acc = refl
add_rows-upload (t ∷ ts) acc = add_rows-upload ts (add_row acc t.rx)

add_rows-download :
    (ts : List Transfer) (acc : Traffic)
    → add_rows download ts acc ≡ some (add_all (columns download ts) acc)
unfolding add_rows
add_rows-download [] acc = refl
add_rows-download (t ∷ ts) acc = add_rows-download ts (add_row acc t.tx)

abbrev pub sum_of : (Traffic → ℕ) → List Traffic → ℕ
sum_of field [] = 0
sum_of field (c ∷ cs) = field c + sum_of field cs

-- The state of the loop.
record IsSummed (cs : List Traffic) (start r : Traffic) : Type 0 where
  bytes : r.total_bytes ≡ (start.total_bytes + sum_of (λ c. c.total_bytes) cs) % 2 ^ 64
  averages : r.avg_bitrate ≡ (start.avg_bitrate + sum_of (λ c. c.avg_bitrate) cs) % 2 ^ 64
  counts : r.tasks ≡ (start.tasks + sum_of (λ c. c.tasks) cs) % 2 ^ 64
  not_less : start.max_bitrate ≤ r.max_bitrate
  greatest : All (λ c. c.max_bitrate ≤ r.max_bitrate) cs
  low : Below r.min_bitrate start.min_bitrate
  least : All (λ c. Below r.min_bitrate c.min_bitrate) cs
  reached : Memᴰ r.max_bitrate (start.max_bitrate ∷ map (λ c. c.max_bitrate) cs)
  met : Memᴰ r.min_bitrate (start.min_bitrate ∷ map (λ c. c.min_bitrate) cs)

abbrev IsWord : ℕ → Type 0
IsWord n = n % 2 ^ 64 ≡ n

min_of_row :
    (acc c : Traffic)
    → ((add_row acc c).min_bitrate ≡ acc.min_bitrate)
      ⊎ ((add_row acc c).min_bitrate ≡ c.min_bitrate)
unfolding add_row
min_of_row acc c =
    let P : ℕ → Type 0 = λ v. (v ≡ acc.min_bitrate) ⊎ (v ≡ c.min_bitrate) in
    by_if P (acc.min_bitrate == 0) (λ _. inr refl)
      (λ _.
        by_if P (ltb 0 c.min_bitrate && ltb c.min_bitrate acc.min_bitrate) (λ _. inr refl)
          (λ _. inl refl))

add_all-IsSummed :
    (cs : List Traffic) (acc : Traffic)
    → IsWord acc.total_bytes × IsWord acc.avg_bitrate × IsWord acc.tasks
    → IsSummed cs acc (add_all cs acc)
unfolding add_row
add_all-IsSummed [] acc w = record {
  bytes = omega (arith, w.0);
  averages = omega (arith, w.1);
  counts = omega (arith, w.2);
  not_less = omega arith;
  greatest = tt;
  low = ground arith;
  least = tt;
  reached = Memᴰ.head refl;
  met = Memᴰ.head refl;
}
add_all-IsSummed (c ∷ cs) acc w =
    let r = add_all-IsSummed cs (add_row acc c) (omega arith, omega arith, omega arith) in
    record {
      bytes = omega (arith, r.bytes);
      averages = omega (arith, r.averages);
      counts = omega (arith, r.counts);
      not_less = ground (arith, r.not_less);
      greatest = (ground (arith, r.not_less), r.greatest);
      low = ground (arith, r.low);
      least = (ground (arith, r.low), r.least);
      reached =
          mem_of_either acc.max_bitrate c.max_bitrate (add_row acc c).max_bitrate _
            (map (λ k. k.max_bitrate) cs)
            (either_of (ltb acc.max_bitrate c.max_bitrate) acc.max_bitrate c.max_bitrate) r.reached;
      met =
          mem_of_either acc.min_bitrate c.min_bitrate (add_row acc c).min_bitrate _
            (map (λ k. k.min_bitrate) cs) (min_of_row acc c) r.met;
    }

-- The statistics of all nodes: sums in 64 bits, the mean of the averages, the greatest of the greatest
-- and the least of those least bitrates that are not zero, each the bitrate of one of the nodes.
pub record IsTotals (cs : List Traffic) (r : Traffic) : Type 0 where
  pub bytes : r.total_bytes ≡ sum_of (λ c. c.total_bytes) cs % 2 ^ 64
  pub average : r.avg_bitrate ≡ (sum_of (λ c. c.avg_bitrate) cs % 2 ^ 64) / length cs
  pub counts : r.tasks ≡ sum_of (λ c. c.tasks) cs % 2 ^ 64
  pub greatest : All (λ c. c.max_bitrate ≤ r.max_bitrate) cs
  pub least : All (λ c. Below r.min_bitrate c.min_bitrate) cs
  pub reached : Memᴰ r.max_bitrate (map (λ c. c.max_bitrate) cs)
  pub met : Memᴰ r.min_bitrate (map (λ c. c.min_bitrate) cs)

add_all-IsTotals :
    (c : Traffic) (cs : List Traffic)
    → IsTotals (c ∷ cs) (mean_of (length (c ∷ cs)) (add_all cs (first_row c)))
unfolding first_row
add_all-IsTotals c cs =
    let r = add_all-IsSummed cs (first_row c) (omega arith, omega arith, omega arith) in
    record {
      bytes = omega (arith, r.bytes);
      average = ap (λ s. s / length (c ∷ cs)) (omega (arith, r.averages));
      counts = omega (arith, r.counts);
      greatest = (r.not_less, r.greatest);
      least = (r.low, r.least);
      reached = r.reached;
      met = r.met;
    }

-- How the query for all nodes ends.
data StatCase (typ : TransferType) (found : Result (List Transfer)) (r : Outcome (Option Traffic))
    : Type 0 where
  missing : (e : Error) → found ≡ err e → r ≡ returns none → StatCase typ found r
  crashed :
      (ts : List Transfer) → found ≡ ok ts → columns typ ts ≡ [] → r ≡ panics → StatCase typ found r
  reported :
      (ts : List Transfer) (c : Traffic)
      → found ≡ ok ts
      → r ≡ returns (some c)
      → IsTotals (columns typ ts) c
      → StatCase typ found r

length-map : (f : Transfer → Traffic) (ts : List Transfer) → length (map f ts) ≡ length ts
length-map f [] = refl
length-map f (t ∷ ts) = ap suc (length-map f ts)

pub stat_of-upload :
    (t : Transfer) (ts : List Transfer)
    → (c : Traffic) × (stat_of upload (ok (t ∷ ts)) ≡ returns (some c))
      × IsTotals (columns upload (t ∷ ts)) c
unfolding stat_of
stat_of-upload t ts = (
  mean_of (length (t ∷ ts)) (add_all (columns upload ts) (first_row t.rx)),
  rw (add_rows-upload ts (first_row t.rx), stat_of) refl,
  subst
      (λ n.
        IsTotals (columns upload (t ∷ ts))
          (mean_of (suc n) (add_all (columns upload ts) (first_row t.rx))))
      (length-map (λ (r : Transfer). r.rx) ts) (add_all-IsTotals t.rx (columns upload ts)),
)

pub stat_of-download :
    (t : Transfer) (ts : List Transfer)
    → (c : Traffic) × (stat_of download (ok (t ∷ ts)) ≡ returns (some c))
      × IsTotals (columns download (t ∷ ts)) c
unfolding stat_of
stat_of-download t ts = (
  mean_of (length (t ∷ ts)) (add_all (columns download ts) (first_row t.tx)),
  rw (add_rows-download ts (first_row t.tx), stat_of) refl,
  subst
      (λ n.
        IsTotals (columns download (t ∷ ts))
          (mean_of (suc n) (add_all (columns download ts) (first_row t.tx))))
      (length-map (λ (r : Transfer). r.tx) ts) (add_all-IsTotals t.tx (columns download ts)),
)

stat_of-StatCase :
    (typ : TransferType) (found : Result (List Transfer)) → StatCase typ found (stat_of typ found)
unfolding stat_of
stat_of-StatCase typ (err e) = missing e refl refl
stat_of-StatCase upload (ok []) = crashed [] refl refl refl
stat_of-StatCase download (ok []) = crashed [] refl refl refl
stat_of-StatCase (unknown k) (ok []) = crashed [] refl refl refl
stat_of-StatCase upload (ok (t ∷ ts)) =
    let (c, e, h) = stat_of-upload t ts in reported (t ∷ ts) c refl e h
stat_of-StatCase download (ok (t ∷ ts)) =
    let (c, e, h) = stat_of-download t ts in reported (t ∷ ts) c refl e h
stat_of-StatCase (unknown k) (ok (t ∷ ts)) = crashed (t ∷ ts) refl refl refl

-- The statistics of all nodes are nil if the rows cannot be read, a panic if there is no row or the type
-- is unknown, and else the sums modulo 2 ^ 64 of bytes and tasks, the mean of the averages, the
-- greatest bitrate, and the least one that is not zero.
get_stat-StatCase :
    (x : StatsEngine) (typ : TransferType) (db : x.Db)
    → StatCase typ (x.find_transfers db) (get_stat x typ db)
unfolding get_stat
get_stat-StatCase x typ db = stat_of-StatCase typ (x.find_transfers db)

-- ===== src/Stats/Rates.antt =====
-- statistics/stat_transfer.go: what `calcMinMaxAvg` computes.
use native.Mathlib.Nat.{div-le_of_le-mul, mod-le}
use codemigrate.Prelude.{
  ℕ, ◌+◌, ◌/◌, ◌%◌, ◌^◌, ◌≤◌, ◌<◌, ◌≡◌, refl, ap, ◌∙◌, List, [], ◌∷◌, ◌&&◌, ◌||◌, ltb, ◌==◌, nat_eq,
  length, All, arith, if◌then◌else◌,
}
use codemigrate.Nodes.Storage.{Below}
use codemigrate.Tasks.Bitrates.{scan, bitrate_statistics}
use codemigrate.Tasks.Statistics.{total, greatest_total}
use codemigrate.Stats.{scan_rates, calc_min_max_avg}

-- The state of the loop.
record IsScanned (l : List ℕ) (sum hi lo : ℕ) (r : ℕ × ℕ × ℕ) : Type 0 where
  not_more : r.0 ≤ sum + total l
  not_less : hi ≤ r.1
  greatest : All (λ b. b ≤ r.1) l
  low : Below r.2 lo
  least : All (λ b. Below r.2 b) l
  ordered : r.2 ≤ r.1

scan_rates-IsScanned :
    (l : List ℕ) (sum hi lo : ℕ) → lo ≤ hi → IsScanned l sum hi lo (scan_rates l sum hi lo)
unfolding scan_rates
scan_rates-IsScanned [] sum hi lo h = record {
  not_more = omega arith;
  not_less = omega arith;
  greatest = tt;
  low = ground arith;
  least = tt;
  ordered = h;
}
scan_rates-IsScanned (b ∷ l) sum hi lo h =
    let hi' = if ltb hi b then b else hi in
    let lo' = if lo == 0 || (ltb 0 b && ltb b lo) then b else lo in
    let r = scan_rates-IsScanned l ((sum + b) % 2 ^ 64) hi' lo' (ground arith) in
    record {
      not_more = omega (arith, r.not_more, mod-le (sum + b) (2 ^ 64));
      not_less = ground (arith, r.not_less);
      greatest = (ground (arith, r.not_less), r.greatest);
      low = ground (arith, r.low);
      least = (ground (arith, r.low), r.least);
      ordered = r.ordered;
    }

-- Greatest, least and average of samples, whatever they add up to.
pub record IsRates (l : List ℕ) (r : ℕ × ℕ × ℕ) : Type 0 where
  pub greatest : All (λ b. b ≤ r.0) l
  pub least : All (λ b. Below r.1 b) l
  pub ordered : r.1 ≤ r.0
  pub average : r.2 ≤ r.0

pub calc_min_max_avg-IsRates : (l : List ℕ) → IsRates l (calc_min_max_avg l)
unfolding calc_min_max_avg
calc_min_max_avg-IsRates [] = record {
  greatest = tt;
  least = tt;
  ordered = omega arith;
  average = omega arith;
}
calc_min_max_avg-IsRates (a ∷ l) =
    let res = scan_rates (a ∷ l) 0 a a in
    let r = scan_rates-IsScanned (a ∷ l) 0 a a (omega arith) in
    record {
      greatest = r.greatest;
      least = r.least;
      ordered = r.ordered;
      average =
          div-le_of_le-mul (length (a ∷ l)) {m = res.0} {n = res.1}
            (omega (arith, r.not_more, greatest_total res.1 (a ∷ l) r.greatest));
    }

scan-scan_rates :
    (l : List ℕ) (sum hi lo : ℕ)
    → 0 < lo
    → All (λ b. 0 < b) l
    → scan_rates l sum hi lo ≡ ((scan l sum lo hi).0, (scan l sum lo hi).2, (scan l sum lo hi).1)
unfolding scan scan_rates
scan-scan_rates [] sum hi lo p a = refl
scan-scan_rates (b ∷ l) sum hi lo p a =
    let same : (if lo == 0 || (ltb 0 b && ltb b lo) then b else lo)
        ≡ (if lo == 0 || ltb b lo then b else lo) =
      ground (arith, a.0) in
    let hi' = if ltb hi b then b else hi in
    ap (scan_rates l ((sum + b) % 2 ^ 64) hi') same
    ∙ scan-scan_rates l ((sum + b) % 2 ^ 64) hi' (if lo == 0 || ltb b lo then b else lo)
        (ground (arith, a.0)) a.1

first-scan_rates :
    (b : ℕ) (l : List ℕ)
    → All (λ c. 0 < c) (b ∷ l)
    → scan_rates (b ∷ l) 0 b b
      ≡ ((scan (b ∷ l) 0 0 0).0, (scan (b ∷ l) 0 0 0).2, (scan (b ∷ l) 0 0 0).1)
unfolding scan scan_rates
first-scan_rates b l a =
    let sum = (0 + b) % 2 ^ 64 in
    let hi : (if ltb b b then b else b) ≡ (if ltb 0 b then b else 0) = ground (arith, a.0) in
    let lo : (if b == 0 || (ltb 0 b && ltb b b) then b else b) ≡ b = ground arith in
    ap (scan_rates l sum (if ltb b b then b else b)) lo
    ∙ ap (λ h. scan_rates l sum h b) hi
    ∙ scan-scan_rates l sum (if ltb 0 b then b else 0) b a.0 a.1

-- Of positive samples the statistics of nodes and those of tasks are the same three numbers.
pub calc_min_max_avg-bitrate_statistics :
    (l : List ℕ)
    → All (λ b. 0 < b) l
    → calc_min_max_avg l
      ≡ ((bitrate_statistics l).2, (bitrate_statistics l).0, (bitrate_statistics l).1)
unfolding calc_min_max_avg bitrate_statistics
calc_min_max_avg-bitrate_statistics [] a = refl
calc_min_max_avg-bitrate_statistics (b ∷ l) a =
    ap (λ (q : ℕ × ℕ × ℕ). (q.1, q.2, q.0 / length (b ∷ l))) (first-scan_rates b l a)

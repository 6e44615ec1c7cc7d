-- ===== src/Tasks/Statistics.antt =====
-- transfer/task/task.go: what `BitrateStatistics` computes.
use native.Mathlib.Nat.{div-le_of_le-mul, le-div_iff_mul-le, mod-eq_of_lt, suc-mul, mul-suc}
use mathlib.Core.List.{Memᴰ}
use codemigrate.Prelude.{
  refl, subst, mem_of_either, either_of, ℕ, ◌+◌, ◌*◌, ◌/◌, ◌%◌, ◌^◌, ◌≤◌, ◌<◌, ◌≡◌, ap, List, [],
  ◌∷◌, ◌++◌, ◌||◌, ltb, ◌==◌, nat_eq, length, All, arith, if◌then◌else◌,
}
use codemigrate.Tasks.Bitrates.{scan, bitrate_statistics}

-- The sum without a bound.
abbrev pub total : List ℕ → ℕ
total [] = 0
total (b ∷ l) = b + total l

-- The state of the loop over positive samples.
record IsScanned (l : List ℕ) (sum lo hi : ℕ) (r : ℕ × ℕ × ℕ) : Type 0 where
  sums : r.0 ≡ sum + total l
  least : r.1 ≤ lo
  greatest : hi ≤ r.2
  low : 0 < r.1
  below : All (λ b. r.1 ≤ b) l
  above : All (λ b. b ≤ r.2) l
  met : Memᴰ r.1 (lo ∷ l)
  reached : Memᴰ r.2 (hi ∷ l)

scan-IsScanned :
    (l : List ℕ) (sum lo hi : ℕ)
    → 0 < lo
    → sum + total l < 2 ^ 64
    → All (λ b. 0 < b) l
    → IsScanned l sum lo hi (scan l sum lo hi)
unfolding scan
scan-IsScanned [] sum lo hi p h a = record {
  sums = omega arith;
  least = omega arith;
  greatest = omega arith;
  low = p;
  below = tt;
  above = tt;
  met = Memᴰ.head refl;
  reached = Memᴰ.head refl;
}
scan-IsScanned (b ∷ l) sum lo hi p h a =
    let lo' = if lo == 0 || ltb b lo then b else lo in
    let hi' = if ltb hi b then b else hi in
    let fits = mod-eq_of_lt {n = sum + b} {m = 2 ^ 64} (omega arith) in
    let res = scan l ((sum + b) % 2 ^ 64) lo' hi' in
    let r =
      scan-IsScanned l ((sum + b) % 2 ^ 64) lo' hi' (ground (arith, a.0)) (omega (arith, fits))
        a.1 in
    record {
      sums = omega (arith, r.sums, fits);
      least = ground (arith, r.least, p);
      greatest = ground (arith, r.greatest);
      low = r.low;
      below = (ground (arith, r.least, p), r.below);
      above = (ground (arith, r.greatest), r.above);
      met = mem_of_either lo b lo' res.1 l (either_of (lo == 0 || ltb b lo) lo b) r.met;
      reached = mem_of_either hi b hi' res.2 l (either_of (ltb hi b) hi b) r.reached;
    }

least_total : (m : ℕ) (l : List ℕ) → All (λ b. m ≤ b) l → m * length l ≤ total l
least_total m [] a = omega arith
least_total m (b ∷ l) a = omega (arith, least_total m l a.1, mul-suc m (length l))

pub greatest_total : (m : ℕ) (l : List ℕ) → All (λ b. b ≤ m) l → total l ≤ length l * m
greatest_total m [] a = omega arith
greatest_total m (b ∷ l) a = omega (arith, greatest_total m l a.1, suc-mul (length l) m)

-- Least, average and greatest of samples: the least and the greatest are samples themselves.
pub record IsStatistics (l : List ℕ) (r : ℕ × ℕ × ℕ) : Type 0 where
  pub below : All (λ b. r.0 ≤ b) l
  pub above : All (λ b. b ≤ r.2) l
  pub met : Memᴰ r.0 l
  pub reached : Memᴰ r.2 l
  pub average : r.1 ≡ total l / length l
  pub between : (r.0 ≤ r.1) × (r.1 ≤ r.2)

-- Of positive samples whose sum fits in 64 bits, the least and the greatest are samples and bound them all,
-- and the average is the sum divided by their number and lies between them.
pub bitrate_statistics-IsStatistics :
    (b : ℕ) (l : List ℕ)
    → total (b ∷ l) < 2 ^ 64
    → All (λ n. 0 < n) (b ∷ l)
    → IsStatistics (b ∷ l) (bitrate_statistics (b ∷ l))
unfolding bitrate_statistics
bitrate_statistics-IsStatistics b l h a =
    let hi = if ltb 0 b then b else 0 in
    let res = scan l ((0 + b) % 2 ^ 64) b hi in
    let fits = mod-eq_of_lt {n = 0 + b} {m = 2 ^ 64} (omega arith) in
    let r = scan-IsScanned l ((0 + b) % 2 ^ 64) b hi a.0 (omega (arith, fits)) a.1 in
    let sum : res.0 ≡ total (b ∷ l) = omega (arith, r.sums, fits) in
    let top : b ≤ res.2 = ground (arith, r.greatest, a.0) in
    record {
      below = (r.least, r.below);
      above = (top, r.above);
      met = r.met;
      reached = subst (λ n. Memᴰ res.2 (n ∷ l)) (ground (arith, a.0)) r.reached;
      average = ap (λ s. s / length (b ∷ l)) sum;
      between = (
        (le-div_iff_mul-le {k = length (b ∷ l)} {x = res.1} {y = res.0} (omega arith)).1
            (omega (arith, sum, least_total res.1 (b ∷ l) (r.least, r.below))),
        div-le_of_le-mul (length (b ∷ l)) {m = res.0} {n = res.2}
            (omega (arith, sum, greatest_total res.2 (b ∷ l) (top, r.above))),
      );
    }

scan_low : (l : List ℕ) (sum lo hi : ℕ) → 0 < lo → All (λ b. 0 < b) l → 0 < (scan l sum lo hi).1
unfolding scan
scan_low [] sum lo hi p a = p
scan_low (b ∷ l) sum lo hi p a = scan_low l _ _ _ (ground (arith, a.0)) a.1

scan_after_zero :
    (pre post : List ℕ) (b sum lo hi : ℕ)
    → All (λ n. 0 < n) (b ∷ post)
    → 0 < (scan (pre ++ 0 ∷ b ∷ post) sum lo hi).1
unfolding scan
scan_after_zero [] post b sum lo hi a = scan_low post _ _ _ (ground (arith, a.0)) a.1
scan_after_zero (c ∷ pre) post b sum lo hi a = scan_after_zero pre post b _ _ _ a

-- A sample of zero is forgotten: whatever came before it, if positive samples follow, the least of all
-- samples is reported as positive.
bitrate_statistics_after_zero :
    (pre post : List ℕ) (b : ℕ)
    → All (λ n. 0 < n) (b ∷ post)
    → 0 < (bitrate_statistics (pre ++ 0 ∷ b ∷ post)).0
unfolding bitrate_statistics
bitrate_statistics_after_zero [] post b a = scan_after_zero [] post b 0 0 0 a
bitrate_statistics_after_zero (c ∷ pre) post b a = scan_after_zero (c ∷ pre) post b 0 0 0 a

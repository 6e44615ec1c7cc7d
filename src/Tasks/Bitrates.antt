-- ===== src/Tasks/Bitrates.antt =====
-- transfer/task/task.go: the bitrates that nodes report of a task. The standard deviation, a
-- floating-point number, is left out.
use codemigrate.Prelude.{
  ℕ, zero, suc, ◌+◌, ◌/◌, ◌%◌, ◌^◌, List, [], ◌∷◌, ◌||◌, ltb, ◌==◌, nat_eq, length, replicate,
  if◌then◌else◌,
}
use codemigrate.TaskTypes.{Task}

-- `TASK_MAX_BITRATES_CNT` zeros, as a new task has them.
unfoldable pub no_samples : List ℕ
no_samples = replicate 1000 0

-- `a[i] = v`
unfoldable pub set_at : ℕ → ℕ → List ℕ → List ℕ
set_at i v [] = []
set_at zero v (b ∷ l) = v ∷ l
set_at (suc i) v (b ∷ l) = b ∷ set_at i v l

-- `a[:n]`
unfoldable pub first : ℕ → List ℕ → List ℕ
first zero l = []
first (suc n) [] = []
first (suc n) (b ∷ l) = b ∷ first n l

-- The count is a `uint32`.
unfoldable pub input_bitrate : ℕ → Task → Task
unfolding set_at
input_bitrate bitrate t = record t {
  bitrates = set_at (t.bitrates_cnt % 1000) bitrate t.bitrates;
  bitrates_cnt = (t.bitrates_cnt + 1) % 2 ^ 32;
}

-- The samples that `delTask` reads.
unfoldable pub samples : Task → List ℕ
unfolding first
samples t = first (if ltb 1000 t.bitrates_cnt then 1000 else t.bitrates_cnt) t.bitrates

-- The loop of `BitrateStatistics`: sum, least and greatest so far. The sum is a `uint64`.
unfoldable pub scan : List ℕ → ℕ → ℕ → ℕ → ℕ × ℕ × ℕ
scan [] sum lo hi = (sum, lo, hi)
scan (b ∷ l) sum lo hi =
    scan l ((sum + b) % 2 ^ 64) (if lo == 0 || ltb b lo then b else lo) (if ltb hi b then b else hi)

-- `BitrateStatistics`: least, average, greatest.
unfoldable pub bitrate_statistics : List ℕ → ℕ × ℕ × ℕ
unfolding scan
bitrate_statistics [] = (0, 0, 0)
bitrate_statistics (b ∷ l) =
    let (sum, lo, hi) = scan (b ∷ l) 0 0 0 in (lo, sum / length (b ∷ l), hi)

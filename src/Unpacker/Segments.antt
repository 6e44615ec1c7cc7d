-- ===== src/Unpacker/Segments.antt =====
-- `GenerateSegs` of pkg.go cuts a file into segments that make it up.
use native.Mathlib.Nat.{suc-mul, mul-le-mul_right, le-div_iff_mul-le}
use native.Mathlib.Decide.{dec_lt, dec_le, ℕ_discrete}
use codemigrate.Prelude.{
  ℕ, zero, suc, ◌+◌, ◌-◌, ◌*◌, ◌/◌, ◌%◌, ◌≤◌, ◌<◌, ◌≡◌, refl, ◌∙◌, ◌≢◌, String, List, [], ◌∷◌,
  Option, some, arith, ltb, nat_eq, length, if◌then◌else◌,
}
use codemigrate.Unpacker.{DefaultUnpacker, Seg, word, max_cap, per_size, seg_sid, split}

-- What a parameter check would give: sizes and counts are positive, a slice has room for as many segments,
-- and the threshold did not wrap.
pub record IsConfigured (u : DefaultUnpacker) : Type 0 where
  pub size_pos : 0 < u.min_seg_size
  pub num_pos : 0 < u.max_seg_num
  pub num_small : u.max_seg_num ≤ max_cap
  pub threshold : u.size_threshold ≡ u.min_seg_size * u.max_seg_num

abbrev pub total_size : List Seg → ℕ
total_size [] = 0
total_size (s ∷ l) = s.size + total_size l

-- The segments from an index on: numbered in order, none of them empty.
abbrev pub Numbered : DefaultUnpacker → String → ℕ → ℕ → List Seg → Type 0
Numbered u fid per idx [] = Unit {0}
Numbered u fid per idx (s ∷ l) =
    (s.sid ≡ seg_sid u fid idx) × (0 < s.size) × (s.size ≤ per) × Numbered u fid per (idx + 1) l

-- The segments of a loop: they add up to the size, in order, and there are not too many.
pub record Pieces (u : DefaultUnpacker) (fid : String) (per idx total : ℕ) (r : Option (List Seg))
    : Type 0 where
  pub list : List Seg
  pub returned : r ≡ some list
  pub sum : total_size list ≡ total
  pub numbered : Numbered u fid per idx list
  pub count : length list * per < total + per

-- One more segment, of `per` bytes or of all that is left.
count_step :
    (k per total : ℕ)
    → 0 < per
    → 0 < total
    → k * per < total - (if ltb total per then total else per) + per
    → suc k * per < total + per
count_step zero per total p t h = grind arith
count_step (suc k) per total p t h = ground (arith, suc-mul (suc k) per, suc-mul k per)

pub split-Pieces :
    (u : DefaultUnpacker) (fid : String) (fuel per idx total : ℕ)
    → 0 < per
    → total ≤ fuel
    → Pieces u fid per idx total (split u fid fuel per idx total)
unfolding split
split-Pieces u fid zero per idx total h le = record {
  list = [];
  returned = ground arith;
  sum = omega arith;
  numbered = tt;
  count = ground arith;
}
split-Pieces u fid (suc fuel) per idx zero h le = record {
  list = [];
  returned = ground arith;
  sum = omega arith;
  numbered = tt;
  count = ground arith;
}
split-Pieces u fid (suc fuel) per idx (suc t) h le =
    let size : ℕ = if ltb (suc t) per then suc t else per in
    let more = split-Pieces u fid fuel per (idx + 1) (suc t - size) h (ground arith) in
    record {
      list = record { sid = seg_sid u fid idx; size = size } ∷ more.list;
      returned = ground (arith, more.returned);
      sum = ground (arith, more.sum);
      numbered = (refl, ground arith, ground arith, more.numbered);
      count = count_step (length more.list) per (suc t) h (omega arith) more.count;
    }

-- The three ways in which a configured unpacker chooses the size of a segment.
pub data PerCase (u : DefaultUnpacker) (size : ℕ) (r : Option ℕ) : Type 0 where
  least : size ≤ u.min_seg_size * u.max_seg_num → r ≡ some u.min_seg_size → PerCase u size r
  exact :
      u.min_seg_size * u.max_seg_num < size
      → size % u.max_seg_num ≡ 0
      → r ≡ some (size / u.max_seg_num)
      → PerCase u size r
  rough :
      (k : ℕ)
      → u.max_seg_num ≡ suc k
      → 0 < k
      → u.min_seg_size * u.max_seg_num < size
      → r ≡ some (size / k)
      → PerCase u size r

pub below_num : (n : ℕ) → 0 < n → n < word → (n + word - 1) % word ≡ n - 1
below_num n p h = omega arith

rough_case :
    (u : DefaultUnpacker) (size k : ℕ)
    → IsConfigured u
    → u.max_seg_num ≡ suc k
    → u.min_seg_size * u.max_seg_num < size
    → size % u.max_seg_num ≢ 0
    → PerCase u size (per_size u size)
unfolding per_size
rough_case u size zero c e big odd = absurd (odd (rw e (omega arith)))
rough_case u size (suc k) c e big odd =
    let b : (u.max_seg_num + word - 1) % word ≡ suc k =
      below_num u.max_seg_num c.num_pos (omega (arith, c.num_small)) ∙ omega arith in
    rough (suc k) e (omega arith) big (ground (arith, c.threshold, b))

pub per_size-PerCase :
    (u : DefaultUnpacker) (size : ℕ) → IsConfigured u → PerCase u size (per_size u size)
unfolding per_size
per_size-PerCase u size c = elim (dec_lt (u.min_seg_size * u.max_seg_num) size) [
  | no small ↦ least (omega arith) (ground (arith, c.threshold))
  | yes big ↦ elim (ℕ_discrete (size % u.max_seg_num) 0) [
    | yes even ↦ exact big even (ground (arith, c.threshold, c.num_pos))
    | no odd ↦ rough_case u size (u.max_seg_num - 1) c (omega (arith, c.num_pos)) big odd
  ]
]

-- A quotient is at least `b` when the dividend is.
pub le_div : (b n k : ℕ) → 0 < k → b * k ≤ n → b ≤ n / k
le_div b n k p h = (le-div_iff_mul-le p).1 h

pub segment_count : (k per total n : ℕ) → k * per < total + per → total ≤ n * per → 0 < per → k ≤ n
segment_count k per total n h t p = elim (dec_le k n) [
  | yes le ↦ le
  | no gt ↦
      absurd (omega (arith, mul-le-mul_right {m = suc n} {n = k} per (omega arith), suc-mul n per))
]

-- ===== src/Api/Packages/Percent.antt =====
-- api/controllers/pkg.go: the percentage that is shown of a file.
use native.Mathlib.Nat.{mod-eq_of_lt, le-div_iff_mul-le, div-le_self}
use native.Mathlib.Decide.{dec_lt}
use codemigrate.Prelude.{ℕ, ◌+◌, ◌*◌, ◌/◌, ◌^◌, ◌<◌, ◌≤◌, ◌≡◌, refl, arith, ◌%◌, ltb, if◌then◌else◌}
use codemigrate.Prelude.Int.{ℤ, pos}
use codemigrate.Api.Packages.{percent_of}

-- A percentage of what is to be had: at most 100, and 100 just if all is there.
pub record IsPercent (have size : ℕ) (r : ℤ) : Type 0 where
  pub value : ℕ
  pub shown : r ≡ pos value
  pub bound : value ≤ 100
  pub full : size ≤ have → value ≡ 100
  pub partial : value ≡ 100 → size ≤ have

-- While a hundred times the bytes stay below 2 ^ 63, the percentage of a file that is shown is from 0 to
-- 100, and it is 100 exactly if no byte is missing.
pub percent_of-IsPercent :
    (finished cur size : ℕ)
    → (finished + cur) * 100 < 2 ^ 63
    → IsPercent (finished + cur) size (percent_of finished cur size)
unfolding percent_of
percent_of-IsPercent finished cur size h = elim (dec_lt 0 size) [
  | no empty ↦ record {
    value = 100;
    shown = ground (arith, empty);
    bound = omega arith;
    full = λ k. refl;
    partial = λ k. omega (arith, empty);
  }
  | yes p ↦
      let total = (finished + cur) * 100 in
      let wrap : total % 2 ^ 64 ≡ total =
        mod-eq_of_lt {n = total} {m = 2 ^ 64} (omega (arith, h)) in
      let small = div-le_self total size in
      let hundred = le-div_iff_mul-le {k = size} {x = 100} {y = total} p in
      record {
        value = if ltb 100 (total / size) then 100 else total / size;
        shown = ground (arith, p, wrap, small, h);
        bound = ground arith;
        full = λ k. ground (arith, hundred.1 (omega (arith, k)));
        partial = λ k. omega (arith, hundred.0 (ground (arith, k)));
      }
]

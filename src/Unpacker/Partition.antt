-- ===== src/Unpacker/Partition.antt =====
-- What a call of `GenerateSegs` of pkg.go returns, from its loop and its choice of a segment size.
use native.Mathlib.Nat.{suc-mul, mul-le-mul_right, mul-le-mul_left, div-add-mod', mod-lt}
use text.Mathlib.TextLemmas.{append_cancel_left}
use codemigrate.Prelude.{
  ℕ, ◌+◌, ◌*◌, ◌/◌, ◌≤◌, ◌<◌, ◌≡◌, ◌∙◌, ◌⊎◌, ◌≢◌, String, List, [], ◌∷◌, map, Option, some, true,
  false, arith, nat_eq, length, All, AllDifferent,
}
use codemigrate.Prelude.Decimal.{zero_padded_inj}
use codemigrate.Unpacker.{
  max_cap, DefaultUnpacker, SimpleFile, Seg, per_size, seg_sid, split, SegsOutcome, segs,
  generate_segs,
}
use codemigrate.Unpacker.Segments.{
  IsConfigured, total_size, Numbered, Pieces, split-Pieces, PerCase, least, exact, rough,
  per_size-PerCase, le_div, segment_count,
}

abbrev sids : List Seg → List String
sids = map (λ s. s.sid)

sid-ne : (u : DefaultUnpacker) (fid : String) (i j : ℕ) → i < j → seg_sid u fid i ≢ seg_sid u fid j
unfolding seg_sid
sid-ne u fid i j h e = absurd (
    omega
      (arith, zero_padded_inj 8 (i + u.start_no) (j + u.start_no) (append_cancel_left fid _ _ e)))

sids-ne :
    (u : DefaultUnpacker) (fid : String) (per i idx : ℕ) (l : List Seg)
    → i < idx
    → Numbered u fid per idx l
    → All (λ s. seg_sid u fid i ≢ s) (sids l)
sids-ne u fid per i idx [] h n = tt
sids-ne u fid per i idx (s ∷ l) h n =
    (λ e. sid-ne u fid i idx h (e ∙ n.0), sids-ne u fid per i (idx + 1) l (omega arith) n.3)

sids-AllDifferent :
    (u : DefaultUnpacker) (fid : String) (per idx : ℕ) (l : List Seg)
    → Numbered u fid per idx l
    → AllDifferent (sids l)
sids-AllDifferent u fid per idx [] n = tt
sids-AllDifferent u fid per idx (s ∷ l) n = (
  rw n.0 (sids-ne u fid per idx (idx + 1) l (omega arith) n.3),
  sids-AllDifferent u fid per (idx + 1) l n.3,
)

Numbered-pos :
    (u : DefaultUnpacker) (fid : String) (per idx : ℕ) (l : List Seg)
    → Numbered u fid per idx l
    → All (λ s. 0 < s.size) l
Numbered-pos u fid per idx [] n = tt
Numbered-pos u fid per idx (s ∷ l) n = (n.1, Numbered-pos u fid per (idx + 1) l n.3)

num_le : (u : DefaultUnpacker) → IsConfigured u → u.max_seg_num ≤ u.min_seg_size * u.max_seg_num
num_le u c = omega (arith, mul-le-mul_right {m = 1} {n = u.min_seg_size} u.max_seg_num c.size_pos)

-- The size of a segment of a configured unpacker is positive, at least the configured one, and
-- as many of them as configured cover the file, if that number is not far above the size.
per_size_bounds :
    (u : DefaultUnpacker) (size : ℕ) (r : Option ℕ)
    → IsConfigured u
    → PerCase u size r
    → (per : ℕ) × (r ≡ some per)
      × (0 < per)
      × (u.max_seg_num ≤ u.min_seg_size + 2 → size ≤ u.max_seg_num * per)
per_size_bounds u size r c (least le e) = (u.min_seg_size, e, c.size_pos, λ h. omega arith)
per_size_bounds u size r c (exact big even e) = (
  size / u.max_seg_num,
  e,
  le_div 1 size u.max_seg_num c.num_pos (omega (arith, num_le u c)),
  λ h. omega (arith, div-add-mod' size u.max_seg_num),
)
per_size_bounds u size r c (rough k n p big e) = (
  size / k,
  e,
  le_div 1 size k p (omega (arith, num_le u c)),
  λ h. rw n (
      omega (
        arith,
        div-add-mod' size k,
        mod-lt size {m = k} p,
        suc-mul k (size / k),
        le_div u.min_seg_size size k p (
            omega
              (arith, mul-le-mul_left {m = k} {n = u.max_seg_num} u.min_seg_size (omega arith))),
      )),
)

-- What `GenerateSegs` promises of a file: it returns, the sizes add up to the file's, no segment
-- is empty, no two segments share a name, and there are no more of them than configured, if that
-- number is at most the least size plus two.
pub record IsCut (u : DefaultUnpacker) (size : ℕ) (r : SegsOutcome) : Type 0 where
  pub list : List Seg
  pub returned : r ≡ segs list
  pub sum : total_size list ≡ size
  pub nonempty : All (λ s. 0 < s.size) list
  pub names : AllDifferent (sids list)
  pub few : u.max_seg_num ≤ u.min_seg_size + 2 → length list ≤ u.max_seg_num

segments-IsCut :
    (u : DefaultUnpacker) (fid : String) (f : SimpleFile) (per : ℕ)
    → f.is_file ≡ true
    → 0 < f.size
    → u.max_seg_num ≤ max_cap
    → per_size u f.size ≡ some per
    → 0 < per
    → (u.max_seg_num ≤ u.min_seg_size + 2 → f.size ≤ u.max_seg_num * per)
    → Pieces u fid per 0 f.size (split u fid f.size per 0 f.size)
    → IsCut u f.size (generate_segs u fid f)
unfolding generate_segs
segments-IsCut u fid f per file pos small e p bound pieces = record {
  list = pieces.list;
  returned = ground (arith, small, pieces.returned);
  sum = pieces.sum;
  nonempty = Numbered-pos u fid per 0 pieces.list pieces.numbered;
  names = sids-AllDifferent u fid per 0 pieces.list pieces.numbered;
  few = λ h. segment_count (length pieces.list) per f.size u.max_seg_num pieces.count (bound h) p;
}

-- A configured unpacker cuts every non-empty regular file into segments: the call returns, the sizes
-- add up to the file's, no segment is empty, no two share a name, and there are no more of them than
-- configured, if that number is at most the least size plus two.
pub generate_segs-IsCut :
    (u : DefaultUnpacker) (fid : String) (f : SimpleFile)
    → IsConfigured u
    → f.is_file ≡ true
    → 0 < f.size
    → IsCut u f.size (generate_segs u fid f)
generate_segs-IsCut u fid f c file pos =
    let (per, e, p, bound) = per_size_bounds u f.size _ c (per_size-PerCase u f.size c) in
    segments-IsCut u fid f per file pos c.num_small e p bound
      (split-Pieces u fid f.size per 0 f.size p (omega arith))

-- Folders and empty files have no segments, whatever the configuration.
pub generate_segs_empty :
    (u : DefaultUnpacker) (fid : String) (f : SimpleFile)
    → (f.is_file ≡ false) ⊎ (f.size ≡ 0)
    → generate_segs u fid f ≡ segs []
unfolding generate_segs
generate_segs_empty u fid f h = ground arith

-- ===== src/Unpacker/Limits.antt =====
-- Where `GenerateSegs` of pkg.go fails: the configurations that it cannot work with.
use native.Mathlib.Nat.{div-eq_of_lt-le, mod-eq_of_lt, mod-eq-sub-mod, div-add-mod', mod-lt}
use native.Mathlib.Decide.{dec_lt, ℕ_discrete}
use codemigrate.Prelude.{
  ◌/◌, ◌⊎◌, ◌≢◌, Option, nat_eq, ℕ, zero, suc, ◌+◌, ◌-◌, ◌*◌, ◌%◌, ◌≤◌, ◌<◌, ◌≡◌, refl, ap, ◌∙◌,
  ◌↔◌, String, List, [], ◌∷◌, none, some, true, arith, length, Option-cases, inl, inr,
}
use codemigrate.Errors.{ok}
use codemigrate.Unpacker.{
  DefaultUnpacker, SimpleFile, Seg, word, new_default_unpacker, per_size, split, SegsOutcome, segs,
  cap_panic, max_cap, divide_panic, endless, generate_segs, config,
}
use codemigrate.Unpacker.Segments.{IsConfigured, total_size, Numbered, split-Pieces, below_num}

split_endless :
    (u : DefaultUnpacker) (fid : String) (fuel idx total : ℕ)
    → 0 < total
    → split u fid fuel 0 idx total ≡ none
unfolding split
split_endless u fid zero idx total h = ground arith
split_endless u fid (suc fuel) idx total h =
    ground (arith, split_endless u fid fuel (idx + 1) total)

-- Whether a call returns.
abbrev pub Returns : SegsOutcome → Type 0
Returns (segs l) = Unit
Returns cap_panic = ⊥
Returns divide_panic = ⊥
Returns endless = ⊥

outcome_of_size :
    (u : DefaultUnpacker) (fid : String) (f : SimpleFile) (per : ℕ)
    → f.is_file ≡ true
    → 0 < f.size
    → u.max_seg_num ≤ max_cap
    → per_size u f.size ≡ some per
    → (generate_segs u fid f ≡ endless) ↔ (per ≡ 0)
unfolding generate_segs
outcome_of_size u fid f zero file pos small e =
    (λ h. refl, λ h. ground (arith, split_endless u fid f.size 0 f.size))
outcome_of_size u fid f (suc per) file pos small e = (
  λ h.
      ground (
        arith,
        (split-Pieces u fid f.size (suc per) 0 f.size (omega arith) (omega arith)).returned,
      ),
  λ h. absurd (omega arith),
)

fails_none :
    (u : DefaultUnpacker) (fid : String) (f : SimpleFile)
    → f.is_file ≡ true
    → 0 < f.size
    → u.max_seg_num ≤ max_cap
    → per_size u f.size ≡ none
    → ((generate_segs u fid f ≡ divide_panic) ↔ (per_size u f.size ≡ none))
      × ((generate_segs u fid f ≡ endless) ↔ (per_size u f.size ≡ some 0))
unfolding generate_segs
fails_none u fid f file pos small e =
    ((λ h. e, λ h. ground arith), (λ h. ground arith, λ h. ground arith))

fails_some :
    (u : DefaultUnpacker) (fid : String) (f : SimpleFile) (per : ℕ)
    → f.is_file ≡ true
    → 0 < f.size
    → u.max_seg_num ≤ max_cap
    → per_size u f.size ≡ some per
    → (generate_segs u fid f ≡ divide_panic) ↔ (per_size u f.size ≡ none)
unfolding generate_segs
fails_some u fid f per file pos small e = (λ h. ground arith, λ h. ground arith)

generate_segs-split :
    (u : DefaultUnpacker) (fid : String) (f : SimpleFile) (per : ℕ) (l : List Seg)
    → f.is_file ≡ true
    → 0 < f.size
    → u.max_seg_num ≤ max_cap
    → per_size u f.size ≡ some per
    → split u fid f.size per 0 f.size ≡ some l
    → generate_segs u fid f ≡ segs l
unfolding generate_segs
generate_segs-split u fid f per l file pos small e h = ground (arith, h)

generate_segs-per_size :
    (u : DefaultUnpacker) (fid : String) (f : SimpleFile)
    → f.is_file ≡ true
    → 0 < f.size
    → u.max_seg_num ≤ max_cap
    → ((generate_segs u fid f ≡ divide_panic) ↔ (per_size u f.size ≡ none))
      × ((generate_segs u fid f ≡ endless) ↔ (per_size u f.size ≡ some 0))
generate_segs-per_size u fid f file pos small = elim (Option-cases (per_size u f.size)) [
  | inl e ↦ fails_none u fid f file pos small e
  | inr (per, e) ↦
      let (to, from) = outcome_of_size u fid f per file pos small e in
      (fails_some u fid f per file pos small e, (λ h. e ∙ ap some (to h), λ h. from (cc (e, h))))
]

-- How a size is chosen: one of four ways.
data Choice (u : DefaultUnpacker) (size : ℕ) (r : Option ℕ) : Type 0 where
  least : size ≤ u.size_threshold → r ≡ some u.min_seg_size → Choice u size r
  no_count : u.size_threshold < size → u.max_seg_num ≡ 0 → r ≡ none → Choice u size r
  exact :
      u.size_threshold < size
      → 0 < u.max_seg_num
      → size % u.max_seg_num ≡ 0
      → r ≡ some (size / u.max_seg_num)
      → Choice u size r
  rough :
      u.size_threshold < size
      → 1 < u.max_seg_num
      → size % u.max_seg_num ≢ 0
      → r ≡ some (size / (u.max_seg_num - 1))
      → Choice u size r

-- A count of one divides every size, so that one less than it never divides.
count_of_odd : (size n : ℕ) → n ≢ 0 → size % n ≢ 0 → 1 < n
count_of_odd size zero h k = absurd (h refl)
count_of_odd size (suc zero) h k = absurd (k (omega arith))
count_of_odd size (suc (suc n)) h k = omega arith

per_size-Choice :
    (u : DefaultUnpacker) (size : ℕ) → u.max_seg_num ≤ max_cap → Choice u size (per_size u size)
unfolding per_size
per_size-Choice u size small = elim (dec_lt u.size_threshold size) [
  | no le ↦ least (omega arith) (ground (arith, le))
  | yes big ↦ elim (ℕ_discrete u.max_seg_num 0) [
    | yes zeros ↦ no_count big zeros (ground (arith, big, zeros))
    | no more ↦ elim (ℕ_discrete (size % u.max_seg_num) 0) [
      | yes even ↦ exact big (omega arith) even (ground (arith, big, more, even))
      | no odd ↦
          let big_count = count_of_odd size u.max_seg_num more odd in
          let below = below_num u.max_seg_num (omega (arith, big_count)) (omega (arith, small)) in
          rough big big_count odd (ground (arith, big, more, odd, big_count, below))
    ]
  ]
]

no_size :
    (u : DefaultUnpacker) (size : ℕ) (r : Option ℕ)
    → Choice u size r
    → (r ≡ none) ↔ ((u.size_threshold < size) × (u.max_seg_num ≡ 0))
no_size u size r (least le e) = (λ h. ground (arith, h, e), λ h. absurd (omega (arith, h.0)))
no_size u size r (no_count big zeros e) = (λ h. (big, zeros), λ h. e)
no_size u size r (exact big pos even e) =
    (λ h. ground (arith, h, e), λ h. absurd (omega (arith, h.1)))
no_size u size r (rough big more odd e) =
    (λ h. ground (arith, h, e), λ h. absurd (omega (arith, h.1)))

some_inj : (r : Option ℕ) (a b : ℕ) → r ≡ some a → r ≡ some b → a ≡ b
some_inj r a b e h = cc

small_quotient : (size k : ℕ) → 0 < k → size / k ≡ 0 → size < k
small_quotient size k p h =
    omega (arith, div-add-mod' size k, mod-lt size {m = k} p, ap (λ q. q * k) h)

zero_size :
    (u : DefaultUnpacker) (size : ℕ) (r : Option ℕ)
    → 0 < size
    → Choice u size r
    → (r ≡ some 0) ↔ (
        ((size ≤ u.size_threshold) × (u.min_seg_size ≡ 0))
        ⊎ ((u.size_threshold < size) × (size + 1 < u.max_seg_num)))
zero_size u size r pos (least le e) = (
  λ h. inl (le, some_inj r u.min_seg_size 0 e h),
  λ h. elim h [ inl q ↦ e ∙ ap some q.1 | inr q ↦ absurd (omega (arith, q.0)) ],
)
zero_size u size r pos (no_count big zeros e) = (
  λ h. ground (arith, h, e),
  λ h. elim h [ inl q ↦ absurd (omega (arith, q.0)) | inr q ↦ absurd (omega (arith, q.1)) ],
)
zero_size u size r pos (exact big some_count even e) = (
  λ h.
      let below = small_quotient size u.max_seg_num some_count (some_inj r _ 0 e h) in
      absurd (omega (arith, even, mod-eq_of_lt {n = size} {m = u.max_seg_num} below)),
  λ h. elim h [
    | inl q ↦ absurd (omega (arith, q.0))
    | inr q ↦
        absurd
          (omega (arith, even, mod-eq_of_lt {n = size} {m = u.max_seg_num} (omega (arith, q.1))))
  ],
)
zero_size u size r pos (rough big more odd e) = (
  λ h.
      let below = small_quotient size (u.max_seg_num - 1) (omega arith) (some_inj r _ 0 e h) in
      inr (big, omega (arith, below)),
  λ h. elim h [
    | inl q ↦ absurd (omega (arith, q.0))
    | inr q ↦
        e
        ∙ ap some (
            div-eq_of_lt-le {k = 0} (u.max_seg_num - 1) {m = size} (omega arith)
              (omega (arith, q.1)))
  ],
)

trans_iff : {A B C : Type 0} → A ↔ B → B ↔ C → A ↔ C
trans_iff (f, g) (h, k) = (λ a. h (f a), λ c. g (k c))

-- Of a non-empty regular file, and a count of segments that a slice has room for: the call panics just if the
-- file is above the threshold and the count is zero; it runs for ever just if the file is not above the
-- threshold and the least size is zero, or it is and has two bytes less than the count, or fewer.
pub generate_segs_fails :
    (u : DefaultUnpacker) (fid : String) (f : SimpleFile)
    → f.is_file ≡ true
    → 0 < f.size
    → u.max_seg_num ≤ max_cap
    → ((generate_segs u fid f ≡ divide_panic) ↔ ((u.size_threshold < f.size) × (u.max_seg_num ≡ 0)))
      × ((generate_segs u fid f ≡ endless) ↔ (
          ((f.size ≤ u.size_threshold) × (u.min_seg_size ≡ 0))
          ⊎ ((u.size_threshold < f.size) × (f.size + 1 < u.max_seg_num))))
generate_segs_fails u fid f file pos small =
    let (panics, runs) = generate_segs-per_size u fid f file pos small in
    let choice = per_size-Choice u f.size small in
    (
      trans_iff panics (no_size u f.size (per_size u f.size) choice),
      trans_iff runs (zero_size u f.size (per_size u f.size) pos choice),
    )

-- A configuration that `Config` accepts, of a count and a product that fit in a `uint64`, makes a
-- configured unpacker: the size and the count are positive and the threshold is their product.
config-IsConfigured :
    (u u' : DefaultUnpacker) (m n : ℕ)
    → m * n < word
    → n ≤ max_cap
    → config u m n ≡ ok u'
    → IsConfigured u'
unfolding config
config-IsConfigured u u' m n h k e = ground (arith, mod-eq_of_lt {n = m * n} {m = word} h)

sizes_one :
    (u : DefaultUnpacker) (fid : String) (idx : ℕ) (l : List Seg)
    → Numbered u fid 1 idx l
    → total_size l ≡ length l
sizes_one u fid idx [] n = refl
sizes_one u fid idx (s ∷ l) n = omega (arith, sizes_one u fid (idx + 1) l n.3)

odd_mod : (k : ℕ) → 3 ≤ k → (k + k - 1) % suc k ≡ k - 2
odd_mod k h =
    mod-eq-sub-mod {n = k + k - 1} {m = suc k} (omega arith)
    ∙ ap (λ x. x % suc k) (omega arith)
    ∙ mod-eq_of_lt {n = k - 2} {m = suc k} (omega arith)

per_size_one :
    (k : ℕ) → 3 ≤ k → suc k < word → per_size (new_default_unpacker 1 (suc k)) (k + k - 1) ≡ some 1
unfolding per_size new_default_unpacker
per_size_one k h w = ground (
  arith,
  below_num (suc k) (omega arith) w,
  div-eq_of_lt-le {k = 1} k {m = k + k - 1} (omega arith) (omega arith),
  odd_mod k h,
  mod-eq_of_lt {n = 1 * suc k} {m = word} (omega arith),
)

-- The count in its name is no bound: with a least size of one byte, `n` segments at most and `n` at
-- least four, a file of `2 n - 3` bytes is cut into `2 n - 3` segments, more than `n`.
pub generate_segs_too_many :
    (fid : String) (n : ℕ)
    → 4 ≤ n
    → n ≤ max_cap
    → (l : List Seg) × (generate_segs
          (new_default_unpacker 1 n)
          fid
          (record { is_file = true; size = n + n - 3 })
        ≡ segs l)
      × (length l ≡ n + n - 3)
      × (n < length l)
unfolding generate_segs new_default_unpacker
generate_segs_too_many fid zero h w = absurd (omega arith)
generate_segs_too_many fid (suc k) h w =
    let size : ℕ = k + k - 1 in
    let same : suc k + suc k - 3 ≡ size = omega arith in
    let pieces =
      split-Pieces (new_default_unpacker 1 (suc k)) fid size 1 0 size (omega arith) (omega arith) in
    let ones = sizes_one (new_default_unpacker 1 (suc k)) fid 0 pieces.list pieces.numbered in
    (
      pieces.list,
      generate_segs-split (new_default_unpacker 1 (suc k)) fid
          (record { is_file = true; size = suc k + suc k - 3 }) 1 pieces.list refl (omega arith) w
          (ap (per_size (new_default_unpacker 1 (suc k))) same
            ∙ per_size_one k (omega arith) (omega (arith, w)))
          (ap (λ n. split (new_default_unpacker 1 (suc k)) fid n 1 0 n) same ∙ pieces.returned),
      omega (arith, ones, pieces.sum),
      omega (arith, ones, pieces.sum),
    )

-- ===== src/Unpacker.antt =====
-- pkg/pkg.go: the default unpacker, which names the package, its files and the segments into which
-- a file is cut. `uint64` and `uint` are numbers below 2 ^ 64; indices are `int`s that stay small.
pub mod Segments
pub mod Partition
pub mod Limits
pub mod Names
use Prim.Native.String.{len, slice, ◌++◌ as str_append}
use mathlib.Core.Option
use codemigrate.Prelude.{
  ℕ, zero, suc, ◌+◌, ◌-◌, ◌*◌, ◌/◌, ◌%◌, ◌^◌, String, List, [], ◌∷◌, Option, none, some, Bool, true,
  false, ltb, ◌==◌, nat_eq, ◌||◌, not, if◌then◌else◌,
}
use codemigrate.Prelude.Decimal.{decimal, zero_padded}
use codemigrate.Errors.{Result, ok, err, too_many_files, invalid_seg_config}

abbrev pub word : ℕ
word = 2 ^ 64

pub record DefaultUnpacker : Type 0 where
  pub min_seg_size : ℕ
  pub max_seg_num : ℕ
  pub size_threshold : ℕ
  pub start_no : ℕ

-- `cydex.SimpleFile`, as far as it is read: whether `Type` is `FTYPE_FILE`, and `Size`.
pub record SimpleFile : Type 0 where
  pub is_file : Bool
  pub size : ℕ

pub record Seg : Type 0 where
  pub sid : String
  pub size : ℕ

unfoldable pub new_default_unpacker : ℕ → ℕ → DefaultUnpacker
new_default_unpacker min_seg_size max_seg_num = record {
  min_seg_size = min_seg_size;
  max_seg_num = max_seg_num;
  size_threshold = min_seg_size * max_seg_num % word;
  start_no = 1;
}

-- The clock is an argument: `time.Now().Unix()`.
unfoldable pub generate_pid : DefaultUnpacker → ℕ → String → String
generate_pid u now uid = str_append uid (decimal now)

unfoldable pub generate_fid : DefaultUnpacker → String → ℕ → Result String
generate_fid u pid index =
    if ltb 99 (index + u.start_no)
    then err too_many_files
    else ok (str_append pid (zero_padded 2 (index + u.start_no)))

-- The size of a segment. `none` is the run-time panic of a division by zero.
unfoldable pub per_size : DefaultUnpacker → ℕ → Option ℕ
per_size u size =
    if ltb u.size_threshold size
    then (if u.max_seg_num == 0
        then none
        else if size % u.max_seg_num == 0
        then some (size / u.max_seg_num)
        else (let below = (u.max_seg_num + word - 1) % word in
            if below == 0 then none else some (size / below)))
    else some u.min_seg_size

unfoldable pub seg_sid : DefaultUnpacker → String → ℕ → String
seg_sid u fid idx = str_append fid (zero_padded 8 (idx + u.start_no))

-- The loop of `GenerateSegs` on fuel; `none` means that the fuel ran out.
unfoldable pub split : DefaultUnpacker → String → ℕ → ℕ → ℕ → ℕ → Option (List Seg)
split u fid zero per idx total = if total == 0 then some [] else none
split u fid (suc fuel) per idx total =
    let size = if ltb total per then total else per in
    let rest = split u fid fuel per (idx + 1) (total - size) in
    if total == 0
    then some []
    else Option.map (λ segs. record { sid = seg_sid u fid idx; size = size } ∷ segs) rest

-- The pointers that fit into the address space of a 64-bit machine, of 48 bits. To make a slice of a larger
-- capacity is a panic; that memory runs out below it is not modelled.
abbrev pub max_cap : ℕ
max_cap = 2 ^ 48 / 8

-- How a call of `GenerateSegs` ends: with segments, in the panic of a capacity or of a division by zero, or
-- never, when the loop takes nothing off the size that is left.
pub data SegsOutcome : Type 0 where
  segs : List Seg → SegsOutcome
  cap_panic : SegsOutcome
  divide_panic : SegsOutcome
  endless : SegsOutcome

abbrev of_split : Option (List Seg) → SegsOutcome
of_split none = endless
of_split (some l) = segs l

-- Each round takes at least one byte off, so as much fuel as the file has bytes is enough.
unfoldable pub generate_segs : DefaultUnpacker → String → SimpleFile → SegsOutcome
unfolding per_size split
generate_segs u fid f =
    if not f.is_file || f.size == 0
    then segs []
    else if ltb max_cap u.max_seg_num
    then cap_panic
    else elim (per_size u f.size) [
      | none ↦ divide_panic
      | some per ↦ of_split (split u fid f.size per 0 f.size)
    ]

unfoldable pub get_pid_from_fid : String → String
get_pid_from_fid fid = if len fid == 24 then slice fid 0 22 else ""

unfoldable pub config : DefaultUnpacker → ℕ → ℕ → Result DefaultUnpacker
config u min_seg_size max_seg_num =
    if min_seg_size == 0 || max_seg_num == 0
    then err invalid_seg_config
    else ok (record u {
      min_seg_size = min_seg_size;
      max_seg_num = max_seg_num;
      size_threshold = min_seg_size * max_seg_num % word;
    })

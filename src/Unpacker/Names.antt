-- ===== src/Unpacker/Names.antt =====
-- The lengths of the names that pkg.go makes, and the way back from a file's name to its package's.
use Prim.Native.String.{len, slice, ◌++◌ as str_append}
use text.Mathlib.TextPositions.{len-append, slice-append_left}
use codemigrate.Prelude.{ℕ, ◌+◌, ◌^◌, ◌≤◌, ◌<◌, ◌≡◌, ap, ◌∙◌, String, arith}
use codemigrate.Prelude.Decimal.{decimal, zero_padded, len-decimal, len-zero_padded_two}
use codemigrate.Errors.{ok}
use codemigrate.Unpacker.{DefaultUnpacker, generate_pid, generate_fid, get_pid_from_fid}

generate_fid_ok :
    (u : DefaultUnpacker) (pid : String) (index : ℕ) (fid : String)
    → generate_fid u pid index ≡ ok fid
    → (fid ≡ str_append pid (zero_padded 2 (index + u.start_no))) × (index + u.start_no < 100)
unfolding generate_fid
generate_fid_ok u pid index fid h = ground arith

pid_of_append :
    (pid tail : String) → len pid ≡ 22 → len tail ≡ 2 → get_pid_from_fid (str_append pid tail) ≡ pid
unfolding get_pid_from_fid
pid_of_append pid tail p t =
    let l : len (str_append pid tail) ≡ 24 = omega (arith, len-append pid tail) in
    rw l (ap (slice (str_append pid tail) 0) (omega arith) ∙ slice-append_left pid tail)

-- For a user name of 12 bytes and a clock between the years 2001 and 2286, every file name that is
-- given out has 24 bytes and leads back to the package's name.
pub get_pid_from_fid-generate_fid :
    (u : DefaultUnpacker) (now : ℕ) (uid : String) (index : ℕ) (fid : String)
    → len uid ≡ 12
    → 10 ^ 9 ≤ now
    → now < 10 ^ 10
    → generate_fid u (generate_pid u now uid) index ≡ ok fid
    → (len fid ≡ 24) × (get_pid_from_fid fid ≡ generate_pid u now uid)
unfolding generate_pid
get_pid_from_fid-generate_fid u now uid index fid l lo hi h =
    let (e, small) = generate_fid_ok u _ index fid h in
    let two = len-zero_padded_two (index + u.start_no) small in
    let pid : len (str_append uid (decimal now)) ≡ 22 =
      omega (arith, len-append uid (decimal now), len-decimal 9 now lo hi) in
    rw e (
      omega (arith, len-append (str_append uid (decimal now)) (zero_padded 2 (index + u.start_no))),
      pid_of_append _ _ pid two,
    )

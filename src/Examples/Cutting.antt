-- ===== src/Examples/Cutting.antt =====
-- The default unpacker on small files.
use codemigrate.Prelude.{
  ◌⊎◌, ◌≤◌, ◌<◌, ℕ, String, List, [], ◌∷◌, ◌≡◌, refl, Bool, true, false, arith, length, ◌<◌, ◌↔◌,
  inl, ◌+◌, ◌-◌, none, some,
}
use codemigrate.Errors.{ok}
use codemigrate.Unpacker.{
  DefaultUnpacker, SimpleFile, Seg, seg_sid, new_default_unpacker, segs, divide_panic, endless,
  generate_segs, generate_pid, generate_fid, get_pid_from_fid, config,
}
use codemigrate.Unpacker.Partition.{IsCut, generate_segs-IsCut, generate_segs_empty}
use codemigrate.Unpacker.Limits.{generate_segs_fails, generate_segs_too_many}
use codemigrate.Unpacker.Names.{get_pid_from_fid-generate_fid}
use Prim.Native.String.{len}

-- At least three bytes in a segment, and three segments.
abbrev unpacker : DefaultUnpacker
unpacker = record { min_seg_size = 3; max_seg_num = 3; size_threshold = 9; start_no = 1 }

abbrev eleven_bytes : SimpleFile
eleven_bytes = record { is_file = true; size = 11 }

generate_segs_test :
    generate_segs unpacker "f" eleven_bytes
    ≡ segs (
        record { sid = "f00000001"; size = 5 }
        ∷ record { sid = "f00000002"; size = 5 }
        ∷ record { sid = "f00000003"; size = 1 }
        ∷ [])
unfolding generate_segs seg_sid codemigrate.Prelude.Decimal.zero_padded
generate_segs_test = refl

generate_segs-IsCut_example : IsCut unpacker 11 (generate_segs unpacker "f" eleven_bytes)
generate_segs-IsCut_example =
    generate_segs-IsCut unpacker "f" eleven_bytes
      (record {
        size_pos = omega arith;
        num_pos = omega arith;
        threshold = refl;
        num_small = omega arith;
      })
      refl (omega arith)

generate_segs_empty_example :
    generate_segs unpacker "f" (record { is_file = false; size = 5 }) ≡ segs []
generate_segs_empty_example =
    generate_segs_empty unpacker "f" (record { is_file = false; size = 5 }) (inl refl)

generate_segs_fails_example :
    ((generate_segs unpacker "f" eleven_bytes ≡ divide_panic)
      ↔ ((unpacker.size_threshold < 11) × (unpacker.max_seg_num ≡ 0)))
    × ((generate_segs unpacker "f" eleven_bytes ≡ endless) ↔ (
        ((11 ≤ unpacker.size_threshold) × (unpacker.min_seg_size ≡ 0))
        ⊎ ((unpacker.size_threshold < 11) × (12 < unpacker.max_seg_num))))
generate_segs_fails_example =
    generate_segs_fails unpacker "f" eleven_bytes refl (omega arith) (omega arith)

config_test : config (new_default_unpacker 1 1) 3 3 ≡ ok unpacker
unfolding config new_default_unpacker
config_test = refl

generate_segs_too_many_example :
    (l : List Seg) × (generate_segs
        (new_default_unpacker 1 4)
        "f"
        (record { is_file = true; size = 5 })
      ≡ segs l)
    × (length l ≡ 5)
    × (4 < length l)
generate_segs_too_many_example = generate_segs_too_many "f" 4 (omega arith) (omega arith)

fid_test :
    generate_fid unpacker (generate_pid unpacker 1234567890 "user56789012") 4
    ≡ ok "user56789012123456789005"
unfolding generate_fid generate_pid codemigrate.Prelude.Decimal.decimal
    codemigrate.Prelude.Decimal.zero_padded
fid_test = refl

get_pid_from_fid-generate_fid_example :
    (len "user56789012123456789005" ≡ 24)
    × (get_pid_from_fid "user56789012123456789005"
        ≡ generate_pid unpacker 1234567890 "user56789012")
get_pid_from_fid-generate_fid_example =
    get_pid_from_fid-generate_fid unpacker 1234567890 "user56789012" 4 "user56789012123456789005"
      refl (omega arith) (omega arith) fid_test

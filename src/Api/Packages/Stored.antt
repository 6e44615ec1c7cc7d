-- ===== src/Api/Packages/Stored.antt =====
-- api/controllers/pkg.go: what the inserts of a new package leave in the database.
use native.Mathlib.Decide.{dec_lt}
use codemigrate.Prelude.{
  ℕ, ◌+◌, String, List, [], ◌∷◌, ◌≡◌, refl, inl, inr, Bool, nat_eq, string_eq, length, arith, by_if,
  if◌then◌else◌,
}
use codemigrate.Errors.{ok, by_result}
use codemigrate.Models.{File, Pkg}
use codemigrate.Unpacker.{DefaultUnpacker, SimpleFile, Seg, segs, generate_fid, generate_segs}
use codemigrate.Unpacker.Segments.{IsConfigured, total_size}
use codemigrate.Unpacker.Partition.{generate_segs-IsCut, generate_segs_empty}
use codemigrate.Api.{ApiEngine}
use codemigrate.Api.Packages.Storing.{
  NewFile, Storing, stored, failed, stuck_panic, stuck_endless, new_file, new_seg, insert_segs,
  store_file, store_files, store_pkg,
}

-- The inserts end, and if they are done then with `P`.
abbrev pub Ends : {Db : Type 0} → (Db → Type 0) → Storing Db → Type 0
Ends P (stored s) = P s
Ends P (failed seen s) = Unit
Ends P stuck_panic = ⊥
Ends P stuck_endless = ⊥

Ends-weaken :
    {Db : Type 0} {P Q : Db → Type 0} (r : Storing Db)
    → ((s : Db) → P s → Q s)
    → Ends P r
    → Ends Q r
Ends-weaken (stored s) f h = f s h
Ends-weaken (failed seen s) f h = tt
Ends-weaken stuck_panic f h = h
Ends-weaken stuck_endless f h = h

by_stored :
    {Db B : Type 0} (Q : B → Type 0) {P : Db → Type 0} (r : Storing Db) {g : Bool → Db → B}
    {h : Db → B} (b c : B)
    → Ends P r
    → ((seen : Bool) (s : Db) → Q (g seen s))
    → ((s : Db) → P s → Q (h s))
    → Q (elim r [ failed seen s ↦ g seen s | stuck_panic ↦ b | stuck_endless ↦ c | stored s ↦ h s ])
by_stored Q (stored s) b c e pf ps = ps s e
by_stored Q (failed seen s) b c e pf ps = pf seen s
by_stored Q stuck_panic b c e pf ps = absurd e
by_stored Q stuck_endless b c e pf ps = absurd e

-- The size that the segments of a file have together: nothing of a folder.
abbrev pub content : SimpleFile → ℕ
content f = if f.is_file then f.size else 0

-- The row of a new file and its segments: the name is the unpacker's, the count is that of the segments,
-- and the segments add up to the content.
pub record IsRow (u : DefaultUnpacker) (pid : String) (i : ℕ) (f : NewFile) (row : File)
    (l : List Seg) : Type 0 where
  pub named : generate_fid u pid i ≡ ok row.fid
  pub of_pkg : row.pid ≡ pid
  pub size : row.size ≡ f.simple.size
  pub count : row.num_segs ≡ length l
  pub sum : total_size l ≡ content f.simple

cut_segs :
    (u : DefaultUnpacker) (fid : String) (f : SimpleFile)
    → IsConfigured u
    → (l : List Seg) × (generate_segs u fid f ≡ segs l) × (total_size l ≡ content f)
cut_segs u fid f c = elim (dec_lt 0 f.size) [
  | no h ↦ ([], generate_segs_empty u fid f (inr (omega (arith, h))), ground (arith, h))
  | yes pos ↦
      by_if (λ n. (l : List Seg) × (generate_segs u fid f ≡ segs l) × (total_size l ≡ n)) f.is_file
        (λ file.
          let cut = generate_segs-IsCut u fid f c file pos in (cut.list, cut.returned, cut.sum))
        (λ folder. ([], generate_segs_empty u fid f (inl folder), refl))
]

module _ (x : ApiEngine) where
  open x use {base, insert_pkg, insert_file, insert_seg}

  -- The segments are inserted in order.
  pub data SegsInserted (fid : String) : List Seg → base.Db → base.Db → Type 0 where
    last : (s : base.Db) → SegsInserted fid [] s s
    next :
        (seg : Seg) (l : List Seg) (s s1 s2 : base.Db)
        → insert_seg s fid (new_seg seg) ≡ ok s1
        → SegsInserted fid l s1 s2
        → SegsInserted fid (seg ∷ l) s s2

  -- From index `i` on each file is inserted with its segments.
  pub data Inserted (u : DefaultUnpacker) (pid : String)
      : ℕ → List NewFile → base.Db → base.Db → Type 0 where
    over : (i : ℕ) (s : base.Db) → Inserted u pid i [] s s
    add :
        (i : ℕ) (f : NewFile) (fs : List NewFile) (row : File) (l : List Seg) (s s1 s2 s3 : base.Db)
        → IsRow u pid i f row l
        → insert_file s row ≡ ok s1
        → SegsInserted row.fid l s1 s2
        → Inserted u pid (i + 1) fs s2 s3
        → Inserted u pid i (f ∷ fs) s s3

  insert_segs-SegsInserted :
      (fid : String) (l : List Seg) (s : base.Db)
      → Ends (SegsInserted fid l s) (insert_segs x fid l s)
  unfolding insert_segs
  insert_segs-SegsInserted fid [] s = last s
  insert_segs-SegsInserted fid (seg ∷ l) s =
      by_result (Ends (SegsInserted fid (seg ∷ l) s)) (insert_seg s fid (new_seg seg)) (λ e _. tt)
        (λ s1 e.
          Ends-weaken (insert_segs x fid l s1) (λ s2 h. next seg l s s1 s2 e h)
            (insert_segs-SegsInserted fid l s1))

  abbrev FileStored : DefaultUnpacker → String → ℕ → NewFile → base.Db → base.Db → Type 0
  FileStored u pid i f s s2 =
      (row : File) × (l : List Seg) × (s1 : base.Db) × IsRow u pid i f row l
      × (insert_file s row ≡ ok s1)
      × SegsInserted row.fid l s1 s2

  store_file-FileStored :
      (u : DefaultUnpacker) (flag : ℕ) (pid : String) (i : ℕ) (f : NewFile) (s : base.Db)
      → IsConfigured u
      → Ends (FileStored u pid i f s) (store_file x u flag pid i f s)
  unfolding store_file
  store_file-FileStored u flag pid i f s c =
      by_result (Ends (FileStored u pid i f s)) (generate_fid u pid i) (λ e _. tt)
        (λ fid named.
          let (l, cut, sum) = cut_segs u fid f.simple c in
          let row = new_file flag pid fid f l in
          let is_row : IsRow u pid i f row l = record {
            named = named;
            of_pkg = refl;
            size = refl;
            count = refl;
            sum = sum;
          } in
          rw cut (
            by_result (Ends (FileStored u pid i f s)) (insert_file s row) (λ e _. tt)
              (λ s1 e.
                Ends-weaken (insert_segs x fid l s1) (λ s2 h. (row, l, s1, is_row, e, h))
                  (insert_segs-SegsInserted fid l s1))))

  store_files-Inserted :
      (u : DefaultUnpacker) (flag : ℕ) (pid : String) (i : ℕ) (fs : List NewFile) (s : base.Db)
      → IsConfigured u
      → Ends (Inserted u pid i fs s) (store_files x u flag pid i fs s)
  unfolding store_files
  store_files-Inserted u flag pid i [] s c = over i s
  store_files-Inserted u flag pid i (f ∷ fs) s c =
      by_stored (Ends (Inserted u pid i (f ∷ fs) s)) (store_file x u flag pid i f s) _ _
        (store_file-FileStored u flag pid i f s c) (λ seen s'. tt)
        (λ s2 (row, l, s1, is_row, e, h).
          Ends-weaken (store_files x u flag pid (i + 1) fs s2)
            (λ s3 k. add i f fs row l s s1 s2 s3 is_row e h k)
            (store_files-Inserted u flag pid (i + 1) fs s2 c))

  -- A package: its row, then its files.
  abbrev pub PkgStored : DefaultUnpacker → Pkg → List NewFile → base.Db → base.Db → Type 0
  PkgStored u p fs s s2 = (s1 : base.Db) × (insert_pkg s p ≡ ok s1) × Inserted u p.pid 0 fs s1 s2

  pub store_pkg-PkgStored :
      (u : DefaultUnpacker) (flag : ℕ) (p : Pkg) (fs : List NewFile) (s : base.Db)
      → IsConfigured u
      → Ends (PkgStored u p fs s) (store_pkg x u flag p fs s)
  unfolding store_pkg
  store_pkg-PkgStored u flag p fs s c =
      by_result (Ends (PkgStored u p fs s)) (insert_pkg s p) (λ e _. tt)
        (λ s1 e.
          Ends-weaken (store_files x u flag p.pid 0 fs s1) (λ s2 h. (s1, e, h))
            (store_files-Inserted u flag p.pid 0 fs s1 c))

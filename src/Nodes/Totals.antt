-- ===== src/Nodes/Totals.antt =====
-- transfer/node.go: what `CalcStorage` adds up.
use native.Mathlib.Nat.{mod-add-mod}
use codemigrate.Prelude.{
  ℕ, ◌+◌, ◌%◌, ◌^◌, ◌≡◌, ap, ◌∙◌, inl, inr, String, List, [], ◌∷◌, ◌++◌, map, ◌==◌, string_eq,
  if◌then◌else◌, Bool-cases, arith,
}
use codemigrate.Prelude.GoMap.{GoMap}
use codemigrate.Errors.{Result}
use codemigrate.Nodes.{NodeManager, node_at}
use codemigrate.Nodes.Storage.{
  rows_of, calc_zone_storage, walk_storage, zones_storage, calc_storage,
}

-- Totals and free amounts without a bound.
abbrev pub sums : List (ℕ × ℕ) → ℕ × ℕ
sums [] = (0, 0)
sums (s ∷ l) = (s.0 + (sums l).0, s.1 + (sums l).1)

abbrev plus : ℕ × ℕ → ℕ × ℕ → ℕ × ℕ
plus a b = (a.0 + b.0, a.1 + b.1)

abbrev pub wrapped : ℕ × ℕ → ℕ × ℕ
wrapped a = (a.0 % 2 ^ 64, a.1 % 2 ^ 64)

both : (a b : ℕ × ℕ) → a.0 ≡ b.0 → a.1 ≡ b.1 → a ≡ b
both a b p q i = (p i, q i)

wrapped-plus : (a b : ℕ × ℕ) → wrapped (plus (wrapped a) b) ≡ wrapped (plus a b)
wrapped-plus a b = both _ _ (mod-add-mod a.0 (2 ^ 64) b.0) (mod-add-mod a.1 (2 ^ 64) b.1)

plus_assoc : (a b c : ℕ × ℕ) → plus (plus a b) c ≡ plus a (plus b c)
plus_assoc a b c = both _ _ (omega arith) (omega arith)

plus_zero : (a : ℕ × ℕ) → a ≡ plus a (0, 0)
plus_zero a = both _ _ (omega arith) (omega arith)

zero_plus : (a : ℕ × ℕ) → plus (0, 0) a ≡ a
zero_plus a = both _ _ (omega arith) (omega arith)

sums-append : (l k : List (ℕ × ℕ)) → plus (sums l) (sums k) ≡ sums (l ++ k)
sums-append [] k = zero_plus (sums k)
sums-append (s ∷ l) k = plus_assoc s (sums l) (sums k) ∙ ap (plus s) (sums-append l k)

module _ {Db : Type 0} where
  -- The nodes of the list that are in no zone.
  abbrev pub outside : NodeManager Db → GoMap String ℕ → List (ℕ × ℕ)
  outside nm [] = []
  outside nm ((nid, r) ∷ nodes) =
      let i = (node_at nm r).info in
      if (node_at nm r).zone_id == ""
      then (i.total_storage, i.free_storage) ∷ outside nm nodes
      else outside nm nodes

  walk_storage-wrapped :
      (nm : NodeManager Db) (nodes : GoMap String ℕ) (a : ℕ × ℕ)
      → walk_storage nm nodes (wrapped a) ≡ wrapped (plus a (sums (outside nm nodes)))
  unfolding walk_storage
  walk_storage-wrapped nm [] a = ap wrapped (plus_zero a)
  walk_storage-wrapped nm ((nid, r) ∷ nodes) a =
      let s : ℕ × ℕ = ((node_at nm r).info.total_storage, (node_at nm r).info.free_storage) in
      elim (Bool-cases ((node_at nm r).zone_id == "")) [
        | inl e ↦ rw e (
            ap (walk_storage nm nodes) (wrapped-plus a s)
            ∙ walk_storage-wrapped nm nodes (plus a s)
            ∙ ap wrapped (plus_assoc a s (sums (outside nm nodes))))
        | inr e ↦ rw e (walk_storage-wrapped nm nodes a)
      ]

  zones_storage-wrapped :
      (nm : NodeManager Db) (nids_by_zone : String → Result (List String)) (zids : List String)
      (a : ℕ × ℕ)
      → zones_storage nm nids_by_zone zids (wrapped a)
        ≡ wrapped (plus a (sums (map (λ zid. calc_zone_storage nm (nids_by_zone zid)) zids)))
  unfolding zones_storage
  zones_storage-wrapped nm nids_by_zone [] a = ap wrapped (plus_zero a)
  zones_storage-wrapped nm nids_by_zone (zid ∷ zids) a =
      let s = calc_zone_storage nm (nids_by_zone zid) in
      ap (zones_storage nm nids_by_zone zids) (wrapped-plus a s)
      ∙ zones_storage-wrapped nm nids_by_zone zids (plus a s)
      ∙ ap wrapped
          (plus_assoc a s (sums (map (λ zid. calc_zone_storage nm (nids_by_zone zid)) zids)))

  -- Total and free storage are those of the nodes outside zones and of all zones that could be read, added
  -- up and taken modulo 2 ^ 64 once.
  pub calc_storage-sums :
      (nm : NodeManager Db) (zids : Result (List String))
      (nids_by_zone : String → Result (List String))
      → calc_storage nm zids nids_by_zone
        ≡ wrapped (
            sums (
              outside nm nm.id_map
              ++ map (λ zid. calc_zone_storage nm (nids_by_zone zid)) (rows_of zids)))
  unfolding calc_storage
  calc_storage-sums nm zids nids_by_zone =
      let zones = map (λ zid. calc_zone_storage nm (nids_by_zone zid)) (rows_of zids) in
      ap (zones_storage nm nids_by_zone (rows_of zids)) (
        walk_storage-wrapped nm nm.id_map (0, 0)
        ∙ ap wrapped (zero_plus (sums (outside nm nm.id_map))))
      ∙ zones_storage-wrapped nm nids_by_zone (rows_of zids) (sums (outside nm nm.id_map))
      ∙ ap wrapped (sums-append (outside nm nm.id_map) zones)

-- ===== src/Nodes/Storage.antt =====
-- transfer/node.go: how much storage the nodes have. The rows of zones and nodes are an argument: what
-- `GetZones` and `GetNidsByZone` return, whose errors are ignored.
use codemigrate.Prelude.{
  ℕ, ◌+◌, ◌%◌, ◌^◌, ◌≤◌, ◌<◌, ◌≡◌, refl, ◌⊎◌, inl, inr, String, List, [], ◌∷◌, ◌++◌, Option, none,
  some, ◌&&◌, ltb, ◌==◌, nat_eq, string_eq, if◌then◌else◌, ◌∙◌, All, arith,
}
use codemigrate.Prelude.GoMap.{GoMap}
use codemigrate.Errors.{Result, ok, err}
use codemigrate.Nodes.{NodeInfo, NodeManager, node_at, get_by_nid}

abbrev pub rows_of : Result (List String) → List String
rows_of (err e) = []
rows_of (ok rows) = rows

-- The body of the loop over the nodes of a zone, on the largest total and the least free.
unfoldable pub see_node : NodeInfo → ℕ × ℕ → ℕ × ℕ
see_node i acc = (
  if ltb acc.0 i.total_storage then i.total_storage else acc.0,
  if acc.1 == 0
      then i.free_storage
      else if ltb 0 i.free_storage && ltb i.free_storage acc.1
      then i.free_storage
      else acc.1,
)

module _ {Db : Type 0} where
  unfoldable pub see_found : NodeManager Db → Option ℕ → ℕ × ℕ → ℕ × ℕ
  see_found nm none acc = acc
  see_found nm (some r) acc = see_node (node_at nm r).info acc

  unfoldable pub see_nodes : NodeManager Db → List String → ℕ × ℕ → ℕ × ℕ
  unfolding see_found
  see_nodes nm [] acc = acc
  see_nodes nm (nid ∷ nids) acc = see_nodes nm nids (see_found nm (get_by_nid nm nid) acc)

  unfoldable pub calc_zone_storage : NodeManager Db → Result (List String) → ℕ × ℕ
  unfolding see_nodes
  calc_zone_storage nm nids = see_nodes nm (rows_of nids) (0, 0)

  -- The function that `WalkNodes` calls adds up the nodes without a zone.
  unfoldable pub walk_storage : NodeManager Db → GoMap String ℕ → ℕ × ℕ → ℕ × ℕ
  walk_storage nm [] acc = acc
  walk_storage nm ((nid, r) ∷ nodes) acc =
      let n = node_at nm r in
      walk_storage nm nodes (
        if n.zone_id == ""
        then ((acc.0 + n.info.total_storage) % 2 ^ 64, (acc.1 + n.info.free_storage) % 2 ^ 64)
        else acc)

  unfoldable pub zones_storage :
      NodeManager Db → (String → Result (List String)) → List String → ℕ × ℕ → ℕ × ℕ
  zones_storage nm nids_by_zone [] acc = acc
  zones_storage nm nids_by_zone (zid ∷ zids) acc =
      let (t, f) = calc_zone_storage nm (nids_by_zone zid) in
      zones_storage nm nids_by_zone zids ((acc.0 + t) % 2 ^ 64, (acc.1 + f) % 2 ^ 64)

  unfoldable pub calc_storage :
      NodeManager Db → Result (List String) → (String → Result (List String)) → ℕ × ℕ
  unfolding walk_storage zones_storage
  calc_storage nm zids nids_by_zone =
      zones_storage nm nids_by_zone (rows_of zids) (walk_storage nm nm.id_map (0, 0))

  abbrev info_of : NodeManager Db → Option ℕ → List NodeInfo
  info_of nm none = []
  info_of nm (some r) = (node_at nm r).info ∷ []

  -- What the nodes of the list that are logged in have told.
  abbrev pub heard : NodeManager Db → List String → List NodeInfo
  heard nm [] = []
  heard nm (nid ∷ nids) = info_of nm (get_by_nid nm nid) ++ heard nm nids

-- The value is the field of a node of the list, or the value to start with.
abbrev pub OneOf : (NodeInfo → ℕ) → ℕ → ℕ → List NodeInfo → Type 0
OneOf field start v [] = v ≡ start
OneOf field start v (i ∷ l) = (v ≡ field i) ⊎ OneOf field start v l

-- At most each amount of free storage that is not zero, and zero only if they all are.
abbrev pub Below : ℕ → ℕ → Type 0
Below v f = (f ≡ 0) ⊎ (0 < v) × (v ≤ f)

-- The largest total and the least free storage that is not zero.
pub record IsZoneStorage (l : List NodeInfo) (start r : ℕ × ℕ) : Type 0 where
  greatest : All (λ i. i.total_storage ≤ r.0) l
  not_less : start.0 ≤ r.0
  reached : OneOf (λ i. i.total_storage) start.0 r.0 l
  least : All (λ i. Below r.1 i.free_storage) l
  not_more : Below r.1 start.1
  met : OneOf (λ i. i.free_storage) start.1 r.1 l

first_or_later :
    (field : NodeInfo → ℕ) (i : NodeInfo) (start mid v : ℕ) (l : List NodeInfo)
    → ((mid ≡ start) ⊎ (mid ≡ field i))
    → OneOf field mid v l
    → OneOf field start v (i ∷ l)
first_or_later field i start mid v [] (inl e) o = inr (o ∙ e)
first_or_later field i start mid v [] (inr e) o = inl (o ∙ e)
first_or_later field i start mid v (j ∷ l) e (inl o) = inr (inl o)
first_or_later field i start mid v (j ∷ l) e (inr o) =
    elim (first_or_later field i start mid v l e o) [ inl k ↦ inl k | inr k ↦ inr (inr k) ]

see_node-IsZoneStorage :
    (i : NodeInfo) (l : List NodeInfo) (start r : ℕ × ℕ)
    → IsZoneStorage l (see_node i start) r
    → IsZoneStorage (i ∷ l) start r
unfolding see_node
see_node-IsZoneStorage i l start r s = record {
  greatest = (ground (arith, s.not_less), s.greatest);
  not_less = ground (arith, s.not_less);
  reached =
      first_or_later (λ i. i.total_storage) i start.0 (see_node i start).0 r.0 l (ground arith)
        s.reached;
  least = (ground (arith, s.not_more), s.least);
  not_more = ground (arith, s.not_more);
  met =
      first_or_later (λ i. i.free_storage) i start.1 (see_node i start).1 r.1 l (ground arith)
        s.met;
}

module _ {Db : Type 0} where
  see_found-IsZoneStorage :
      (nm : NodeManager Db) (o : Option ℕ) (l : List NodeInfo) (start r : ℕ × ℕ)
      → IsZoneStorage l (see_found nm o start) r
      → IsZoneStorage (info_of nm o ++ l) start r
  unfolding see_found
  see_found-IsZoneStorage nm none l start r s = s
  see_found-IsZoneStorage nm (some n) l start r s =
      see_node-IsZoneStorage (node_at nm n).info l start r s

  see_nodes-IsZoneStorage :
      (nm : NodeManager Db) (nids : List String) (acc : ℕ × ℕ)
      → IsZoneStorage (heard nm nids) acc (see_nodes nm nids acc)
  unfolding see_nodes
  see_nodes-IsZoneStorage nm [] acc = record {
    greatest = tt;
    not_less = omega arith;
    reached = refl;
    least = tt;
    not_more = ground arith;
    met = refl;
  }
  see_nodes-IsZoneStorage nm (nid ∷ nids) acc =
      see_found-IsZoneStorage nm (get_by_nid nm nid) (heard nm nids) acc
        (see_nodes nm nids (see_found nm (get_by_nid nm nid) acc))
        (see_nodes-IsZoneStorage nm nids (see_found nm (get_by_nid nm nid) acc))

  -- The storage of a zone whose nodes could be read: the total is the largest of its nodes that are
  -- logged in, and the free storage the least that is not zero; both are what one of these nodes has told,
  -- or zero.
  pub calc_zone_storage-IsZoneStorage :
      (nm : NodeManager Db) (nids : List String)
      → IsZoneStorage (heard nm nids) (0, 0) (calc_zone_storage nm (ok nids))
  unfolding calc_zone_storage
  calc_zone_storage-IsZoneStorage nm nids = see_nodes-IsZoneStorage nm nids (0, 0)

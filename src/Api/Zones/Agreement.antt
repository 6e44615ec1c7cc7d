-- ===== src/Api/Zones/Agreement.antt =====
-- api/controllers/zone.go and node.go: nodes that are connected have the zones of their rows again.
use codemigrate.Prelude.{
  ℕ, String, List, [], ◌∷◌, ◌≡◌, ◌≢◌, refl, sym, ap, ◌∙◌, subst, ◌⊎◌, inl, inr, Option, none, some,
  true, false, ◌==◌, ==_iff, nat_eq, string_eq, by_if, Option-cases, All, ◌&&◌,
}
use codemigrate.Prelude.GoMap.{get}
use codemigrate.Errors.{Error, Result, ok, err}
use codemigrate.Nodes.{
  Outcome, Node, NodeManager, node_at, set_node, tell, NodeEvent, on_node_zone_change, get_by_nid,
}
use codemigrate.Nodes.Rows.{NodeRow, NodeEngine}
use codemigrate.Nodes.Closing.{node_at-set_node}
use codemigrate.Nodes.Managed.{Lands, Lands-and_then, Lands-weaken}
use codemigrate.Nodes.Sessions.{reload_model, reload_listed}

false-ne-true : false ≢ true
false-ne-true h = cc

not_self : (r q : ℕ) → r ≡ q → (r == q) ≢ false
not_self r q e h = false-ne-true (sym h ∙ (==_iff r q).1 e)

none-ne-some : (r : ℕ) → none ≢ some r
none-ne-some r h = cc

some_eq : (r q : ℕ) → some r ≡ some q → r ≡ q
some_eq r q h = cc

err-ne-row : (e : Error) (row : NodeRow) → err e ≢ ok (some row)
err-ne-row e row h = cc

-- What a query for a row answers.
data Looked (r : Result (Option NodeRow)) : Type 0 where
  unread : (e : Error) → r ≡ err e → Looked r
  no_row : r ≡ ok none → Looked r
  a_row : (row : NodeRow) → r ≡ ok (some row) → Looked r

look : (r : Result (Option NodeRow)) → Looked r
look (err e) = unread e refl
look (ok none) = no_row refl
look (ok (some row)) = a_row row refl

module _ (x : NodeEngine) where
  open x use {Db, find_node}

  -- The node `r` has the zone of its row, if that can be read.
  abbrev pub Agrees : NodeManager Db → ℕ → Type 0
  Agrees nm r =
      (row : NodeRow)
      → find_node nm.db (node_at nm r).nid ≡ ok (some row)
      → (node_at nm r).zone_id ≡ row.zone_id

  -- Rows, names and ids stay, and so do the nodes that agree.
  pub record Keeps (nm nm' : NodeManager Db) : Type 0 where
    pub db : nm'.db ≡ nm.db
    pub ids : nm'.id_map ≡ nm.id_map
    pub nids : (r : ℕ) → (node_at nm' r).nid ≡ (node_at nm r).nid
    pub agreeing : (r : ℕ) → Agrees nm r → Agrees nm' r

  no_change : (nm : NodeManager Db) → Keeps nm nm
  no_change nm = record { db = refl; ids = refl; nids = λ r. refl; agreeing = λ r a. a }

  two_changes : (nm1 nm2 nm3 : NodeManager Db) → Keeps nm1 nm2 → Keeps nm2 nm3 → Keeps nm1 nm3
  two_changes nm1 nm2 nm3 h k = record {
    db = k.db ∙ h.db;
    ids = k.ids ∙ h.ids;
    nids = λ r. k.nids r ∙ h.nids r;
    agreeing = λ r a. k.agreeing r (h.agreeing r a);
  }

  zone_eq :
      (r : Result (Option NodeRow)) (a b : NodeRow)
      → r ≡ ok (some a)
      → r ≡ ok (some b)
      → a.zone_id ≡ b.zone_id
  zone_eq r a b h k = cc

  -- The node `r` with the zone of the row.
  abbrev moved : ℕ → NodeRow → NodeManager Db → NodeManager Db
  moved r row nm = set_node r (record (node_at nm r) { zone_id = row.zone_id }) nm

  nid_moved :
      (r q : ℕ) (row : NodeRow) (nm : NodeManager Db)
      → (node_at (moved r row nm) q).nid ≡ (node_at nm q).nid
  nid_moved r q row nm =
      ap (λ (n : Node). n.nid) (node_at-set_node nm r q _)
      ∙ by_if (λ (n : Node). n.nid ≡ (node_at nm q).nid) (r == q)
          (λ e. ap (λ i. (node_at nm i).nid) ((==_iff r q).0 e)) (λ _. refl)

  -- A node takes the zone of its row: it agrees then, and no other node stops to.
  moved-Agrees :
      (r q : ℕ) (row : NodeRow) (nm : NodeManager Db)
      → find_node nm.db (node_at nm r).nid ≡ ok (some row)
      → (r ≡ q) ⊎ Agrees nm q
      → Agrees (moved r row nm) q
  unfolding set_node
  moved-Agrees r q row nm found h row' k =
      let k' : find_node nm.db (node_at nm q).nid ≡ ok (some row') =
        ap (find_node nm.db) (sym (nid_moved r q row nm)) ∙ k in
      let same : r ≡ q → row.zone_id ≡ row'.zone_id = λ e.
        zone_eq (find_node nm.db (node_at nm q).nid) row row'
          (subst (λ i. find_node nm.db (node_at nm i).nid ≡ ok (some row)) e found) k' in
      ap (λ (n : Node). n.zone_id) (node_at-set_node nm r q _)
      ∙ by_if (λ (n : Node). n.zone_id ≡ row'.zone_id) (r == q) (λ e. same ((==_iff r q).0 e))
          (λ other. elim h [ inl e ↦ absurd (not_self r q e other) | inr a ↦ a row' k' ])

  moved-Keeps :
      (r : ℕ) (row : NodeRow) (nm : NodeManager Db)
      → find_node nm.db (node_at nm r).nid ≡ ok (some row)
      → Keeps nm (moved r row nm) × Agrees (moved r row nm) r
  unfolding set_node
  moved-Keeps r row nm found = (
    record {
      db = refl;
      ids = refl;
      nids = λ q. nid_moved r q row nm;
      agreeing = λ q a. moved-Agrees r q row nm found (inr a);
    },
    moved-Agrees r r row nm found (inl refl),
  )

  -- What the reload of the node `r` leaves, if it returns.
  abbrev Reloads : ℕ → NodeManager Db → NodeManager Db → Type 0
  Reloads r nm nm' = Keeps nm nm' × Agrees nm' r

  told-Reloads :
      (r : ℕ) (row : NodeRow) (e : NodeEvent) (nm : NodeManager Db)
      → find_node nm.db (node_at nm r).nid ≡ ok (some row)
      → Reloads r nm (set_node r (record (node_at nm r) { zone_id = row.zone_id }) (tell e nm))
  unfolding tell node_at
  told-Reloads r row e nm found =
      let told = tell e nm in
      let (k, a) = moved-Keeps r row told found in
      (
        two_changes nm told _
            (record { db = refl; ids = refl; nids = λ q. refl; agreeing = λ q b. b }) k,
        a,
      )

  reload_model-Reloads :
      (r : ℕ) (nm : NodeManager Db) → Lands (Reloads r nm) (reload_model x false r nm)
  unfolding reload_model
  reload_model-Reloads r nm =
      let n = node_at nm r in
      let P : Outcome (NodeManager Db) → Type 0 = Lands (Reloads r nm) in
      elim (look (find_node nm.db n.nid)) [
        | unread e h ↦
            rw (h, reload_model) (no_change nm, λ row k. absurd (err-ne-row e row (sym h ∙ k)))
        | no_row h ↦ rw (h, reload_model) tt
        | a_row row h ↦
            rw (h, reload_model)
              (by_if P (row.zone_id == n.zone_id)
                (λ same. (
                  no_change nm,
                  λ row' k.
                      sym ((==_iff row.zone_id n.zone_id).0 same)
                      ∙ zone_eq (find_node nm.db n.nid) row row' h k,
                ))
                (λ _.
                  by_if P (n.has_mgr && false) (λ _. tt)
                    (λ _.
                      by_if P n.has_mgr
                        (λ _. told-Reloads r row (on_node_zone_change r n.zone_id row.zone_id) nm h)
                        (λ _. moved-Keeps r row nm h))))
      ]

  -- Of the listed names those that are connected agree.
  abbrev pub AllAgree : List String → NodeManager Db → Type 0
  AllAgree nids nm = All (λ nid. (r : ℕ) → get_by_nid nm nid ≡ some r → Agrees nm r) nids

  -- Reloaded one by one, the connected nodes of a list agree with their rows in the end.
  pub reload_listed-AllAgree :
      (nids : List String) (nm : NodeManager Db)
      → Lands (λ nm'. Keeps nm nm' × AllAgree nids nm') (reload_listed x nids nm)
  unfolding reload_listed get_by_nid
  reload_listed-AllAgree [] nm = (no_change nm, tt)
  reload_listed-AllAgree (nid ∷ nids) nm =
      let Q : List String → NodeManager Db → NodeManager Db → Type 0 =
        λ l m m'. Keeps m m' × AllAgree l m' in
      elim (Option-cases (get nm.id_map nid)) [
        | inl e ↦
            rw (e, reload_listed)
              (Lands-weaken (reload_listed x nids nm)
                (λ nm' (k, a). (
                  k,
                  (λ r f. absurd (none-ne-some r (sym e ∙ ap (λ m. get m nid) (sym k.ids) ∙ f)), a),
                ))
                (reload_listed-AllAgree nids nm))
        | inr (r, e) ↦
            rw (e, reload_listed)
              (Lands-and_then (Q (nid ∷ nids) nm) (reload_model x false r nm) (reload_listed x nids)
                (reload_model-Reloads r nm)
                (λ nm1 (k1, a1).
                  Lands-weaken (reload_listed x nids nm1)
                    (λ nm' (k, a).
                      let both = two_changes nm nm1 nm' k1 k in
                      (
                        both,
                        (
                          λ r' f.
                              subst (Agrees nm')
                                (some_eq r r' (sym e ∙ ap (λ m. get m nid) (sym both.ids) ∙ f))
                                (k.agreeing r a1),
                          a,
                        ),
                      ))
                    (reload_listed-AllAgree nids nm1)))
      ]

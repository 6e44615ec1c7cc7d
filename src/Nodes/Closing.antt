-- ===== src/Nodes/Closing.antt =====
-- transfer/node.go: what becomes of a node whose connection is closed.
use codemigrate.Prelude.{
  ℕ, String, [], ◌∷◌, ◌≡◌, ◌≢◌, refl, ap, ◌∙◌, none, some, Bool, true, arith, ◌==◌, nat_eq,
  string_eq, if◌then◌else◌, inl, inr, Option-cases, by_if, ==_self, ◌&&◌,
}
use codemigrate.Prelude.GoMap.{GoMap, get-put}
use codemigrate.Nodes.{
  returns, panics, Node, PendingReq, NodeManager, close_pending, node_at, set_node, tell, del_node,
}
use codemigrate.Nodes.Rows.{NodeEngine}
use codemigrate.Nodes.Sessions.{close, mark_closed}

-- Once closed, channels cannot be closed again.
close_pending_again :
    (l l' : GoMap ℕ PendingReq) → l ≢ [] → close_pending l ≡ some l' → close_pending l' ≡ none
unfolding close_pending
close_pending_again [] l' h e = absurd (h refl)
close_pending_again ((seq, req) ∷ l) l' h e = elim (Option-cases (close_pending l)) [
  | inl p ↦ ground (arith, p, e)
  | inr (k, p) ↦ ground (arith, p, e)
]

module _ {Db : Type 0} where
  pub node_at-set_node :
      (nm : NodeManager Db) (r q : ℕ) (n : Node)
      → node_at (set_node r n nm) q ≡ (if r == q then n else node_at nm q)
  unfolding node_at set_node
  node_at-set_node nm r q n = ground (arith, get-put nm.nodes r n q)

  pub node_at-del_node :
      (nid : String) (nm : NodeManager Db) (r : ℕ) → node_at (del_node nid nm) r ≡ node_at nm r
  unfolding del_node tell node_at
  node_at-del_node nid nm r = ground arith

module _ (x : NodeEngine) where
  open x use {Db}

  pub node_at-mark_closed :
      (now : ℕ) (reqs : GoMap ℕ PendingReq) (r q : ℕ) (nm : NodeManager Db)
      → node_at (mark_closed x now reqs r nm) q ≡ (
          if r == q
          then record (node_at nm r) { pending_reqs = reqs; closed = true }
          else node_at nm q)
  unfolding mark_closed node_at set_node
  node_at-mark_closed now reqs r q nm =
      ground
        (arith, get-put nm.nodes r (record (node_at nm r) { pending_reqs = reqs; closed = true }) q)

  pub id_map-mark_closed :
      (now : ℕ) (reqs : GoMap ℕ PendingReq) (r : ℕ) (nm : NodeManager Db)
      → (mark_closed x now reqs r nm).id_map ≡ nm.id_map
  unfolding mark_closed set_node
  id_map-mark_closed now reqs r nm = refl

  pub close_open :
      (now : ℕ) (d : Bool) (r : ℕ) (nm : NodeManager Db) (reqs : GoMap ℕ PendingReq)
      → close_pending (node_at nm r).pending_reqs ≡ some reqs
      → close x now d r nm
        ≡ returns (
            if d && (node_at nm r).has_mgr
            then del_node (node_at nm r).nid (mark_closed x now reqs r nm)
            else mark_closed x now reqs r nm)
  unfolding close
  close_open now d r nm reqs e = rw (e, close) refl

  close_panics :
      (now : ℕ) (d : Bool) (r : ℕ) (nm : NodeManager Db)
      → close_pending (node_at nm r).pending_reqs ≡ none
      → close x now d r nm ≡ panics
  unfolding close
  close_panics now d r nm e = rw (e, close) refl

  left_reqs :
      (now : ℕ) (b : Bool) (reqs : GoMap ℕ PendingReq) (r : ℕ) (nid : String) (nm : NodeManager Db)
      → (node_at
          (if b then del_node nid (mark_closed x now reqs r nm) else mark_closed x now reqs r nm)
          r).pending_reqs
        ≡ reqs
  left_reqs now b reqs r nid nm =
      let at_r = node_at-mark_closed now reqs r r nm in
      by_if (λ (m : NodeManager Db). (node_at m r).pending_reqs ≡ reqs) b
        (λ _. rw (node_at-del_node nid (mark_closed x now reqs r nm) r, at_r, ==_self r) refl)
        (λ _. rw (at_r, ==_self r) refl)

  -- A node that waits for the response to a request and is closed once, as a login of the same node on
  -- a new connection does, takes the program down when it is closed again, as its own connection does
  -- when it ends: its channels are closed twice.
  pub close_twice :
      (now now' : ℕ) (d d' : Bool) (r : ℕ) (nm : NodeManager Db) (reqs : GoMap ℕ PendingReq)
      → (node_at nm r).pending_reqs ≢ []
      → close_pending (node_at nm r).pending_reqs ≡ some reqs
      → (nm' : NodeManager Db) × (close x now d r nm ≡ returns nm')
        × (close x now' d' r nm' ≡ panics)
  close_twice now now' d d' r nm reqs h e =
      let again = close_pending_again _ reqs h e in
      let same = left_reqs now (d && (node_at nm r).has_mgr) reqs r (node_at nm r).nid nm in
      (_, close_open now d r nm reqs e, close_panics now' d' r _ (ap close_pending same ∙ again))

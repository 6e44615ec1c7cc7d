-- ===== src/Api/Packages/Reaching.antt =====
-- api/controllers/pkg.go: which node a request to remove a file goes to.
use codemigrate.Prelude.{
  ℕ, String, List, [], ◌∷◌, ◌≡◌, ◌≢◌, refl, ◌∙◌, ap, none, some, true, false, not, ◌&&◌, ◌==◌,
  ==_iff, nat_eq, string_eq, by_if, by_option,
}
use codemigrate.Prelude.Text.{to_lower}
use codemigrate.Prelude.GoMap.{get}
use codemigrate.Errors.{Result, ok}
use codemigrate.Models.{File, Job}
use codemigrate.Nodes.{Node, PendingReq, NodeManager, node_at, set_node, get_by_nid}
use codemigrate.Nodes.Closing.{node_at-set_node}
use codemigrate.Nodes.Messages.{send_request, end_request}
use codemigrate.Schedulers.Default
use codemigrate.Schedulers.Default.{Url, DefaultScheduler}
use codemigrate.Api.Packages.Freeing.{RemoveFileReq, Removal}

module _ {Db : Type 0} where
  -- The same nodes are connected, and the same of them are closed.
  abbrev pub SameNodes : NodeManager Db → NodeManager Db → Type 0
  SameNodes nm nm' =
      (nm'.id_map ≡ nm.id_map) × ((q : ℕ) → (node_at nm' q).closed ≡ (node_at nm q).closed)

  closed-set_node :
      (u q : ℕ) (n : Node) (nm : NodeManager Db)
      → n.closed ≡ (node_at nm u).closed
      → (node_at (set_node u n nm) q).closed ≡ (node_at nm q).closed
  closed-set_node u q n nm h =
      ap (λ (k : Node). k.closed) (node_at-set_node nm u q n)
      ∙ by_if (λ (k : Node). k.closed ≡ (node_at nm q).closed) (u == q)
          (λ e. h ∙ ap (λ (v : ℕ). (node_at nm v).closed) ((==_iff u q).0 e)) (λ _. refl)

  pub send_request-SameNodes : (u : ℕ) (nm : NodeManager Db) → SameNodes nm (send_request u nm).0
  unfolding send_request set_node
  send_request-SameNodes u nm = (refl, λ q. closed-set_node u q _ nm refl)

  pub end_request-SameNodes :
      (u seq : ℕ) (nm : NodeManager Db) → SameNodes nm (end_request u seq nm)
  unfolding end_request set_node
  end_request-SameNodes u seq nm =
      let n = node_at nm u in
      by_option {A = PendingReq} (SameNodes nm) (get n.pending_reqs seq) (refl, λ q. refl)
        (λ req _.
          by_if (SameNodes nm) (req.is_closed && not req.has_rsp) (λ _. (refl, λ q. refl))
            (λ _. (refl, λ q. closed-set_node u q _ nm refl)))

  pub then_same :
      (nm1 nm2 nm3 : NodeManager Db) → SameNodes nm1 nm2 → SameNodes nm2 nm3 → SameNodes nm1 nm3
  then_same nm1 nm2 nm3 h k = (k.0 ∙ h.0, λ q. k.1 q ∙ h.1 q)

  pub sent_open :
      (u : ℕ) (nm : NodeManager Db) → (node_at nm u).closed ≡ false → (send_request u nm).1 ≢ none
  unfolding send_request
  sent_open u nm h e = cc (rw (h, send_request) at e)

module _ {Db : Type 0} (parse : String → Result Url) where
  -- A storage of the scheme `file` names a node that is connected and not closed.
  abbrev pub OnNode : NodeManager Db → String → ℕ → Type 0
  OnNode nm storage u =
      (url : Url) × ((storage == "") ≡ false)
      × (parse storage ≡ ok url)
      × ((to_lower url.scheme == "file") ≡ true)
      × (get_by_nid nm url.host ≡ some u)
      × ((node_at nm u).closed ≡ false)

  pub OnNode-dispatch_download :
      (nm : NodeManager Db) (storage : String) (s : DefaultScheduler) (u : ℕ)
      → OnNode nm storage u
      → (Default.dispatch_download parse nm storage s).1 ≡ ok (some u)
  unfolding Default.dispatch_download
  OnNode-dispatch_download nm storage s u (url, filled, parsed, file, found, opened) =
      rw (filled, parsed, file, found, Default.dispatch_download) refl

  OnNode-later :
      (nm nm' : NodeManager Db) (storage : String) (u : ℕ)
      → SameNodes nm nm'
      → OnNode nm storage u
      → OnNode nm' storage u
  unfolding get_by_nid
  OnNode-later nm nm' storage u same (url, filled, parsed, file, found, opened) =
      (url, filled, parsed, file, ap (λ m. get m url.host) same.0 ∙ found, same.1 u ∙ opened)

  -- What is sent for a file: nothing, if no node that can be reached stores it, or one request for it, to
  -- that node if there is one.
  pub data Sent (nm : NodeManager Db) (j : Job) (f : File) (storage : String)
      : List Removal → Type 0 where
    no_request : ((v : ℕ) → ¬ OnNode nm storage v) → Sent nm j f storage []
    request :
        (u : ℕ) (m : RemoveFileReq)
        → (m.uid ≡ j.uid) × (m.pid ≡ j.pid)
        → (m.fid ≡ f.fid) × (m.file_storage ≡ storage)
        → ((v : ℕ) → OnNode nm storage v → v ≡ u)
        → Sent nm j f storage ((u, m) ∷ [])

  pub Sent-earlier :
      (nm nm' : NodeManager Db) (j : Job) (f : File) (storage : String) (ms : List Removal)
      → SameNodes nm nm'
      → Sent nm' j f storage ms
      → Sent nm j f storage ms
  Sent-earlier nm nm' j f storage _ same (no_request h) =
      no_request (λ v o. h v (OnNode-later nm nm' storage v same o))
  Sent-earlier nm nm' j f storage _ same (request u m a b to) =
      request u m a b (λ v o. to v (OnNode-later nm nm' storage v same o))

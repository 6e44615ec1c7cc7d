-- ===== src/Schedulers/Routing.antt =====
-- transfer/task/default_scheduler.go: where an upload goes.
use codemigrate.Prelude.{
  ℕ, String, ◌≡◌, refl, ap, ◌∙◌, Option, none, some, false, arith, ◌==◌, string_eq, if◌then◌else◌,
}
use codemigrate.Prelude.Text.{to_lower}
use codemigrate.Errors.{Result, ok, err, not_same_node}
use codemigrate.Nodes.{NodeManager, get_by_nid}
use codemigrate.Schedulers.{UploadReq}
use codemigrate.Schedulers.Restrict
use codemigrate.Schedulers.Default.{
  Url, DefaultScheduler, dispatch_download, dispatch_rr, dispatch_upload, route, same_node, found,
}

abbrev pub its_node : Option ℕ → Result (Option ℕ)
its_node none = err not_same_node
its_node (some u) = ok (some u)

same_node_found : (s : DefaultScheduler) (o : Option ℕ) → same_node (s, ok o) ≡ (s, its_node o)
same_node_found s none = refl
same_node_found s (some u) = refl

module _ {Db : Type 0} (parse : String → Result Url) where
  req_kept :
      (now : ℕ) (nm : NodeManager Db) (req : UploadReq) (s : Restrict.RestrictUploadScheduler)
      → (Restrict.dispatch_upload now nm req s).1.file_storage ≡ req.file_storage
  unfolding Restrict.dispatch_upload
  req_kept now nm req s = ground arith

  dispatch_download_file :
      (nm : NodeManager Db) (storage : String) (s : DefaultScheduler) (url : Url)
      → (storage == "") ≡ false
      → parse storage ≡ ok url
      → to_lower url.scheme ≡ "file"
      → dispatch_download parse nm storage s ≡ (s, ok (get_by_nid nm url.host))
  unfolding dispatch_download
  dispatch_download_file nm storage s url e p f = rw (e, dispatch_download) (rw p (rw f refl))

  route_stored :
      (nm : NodeManager Db) (req : UploadReq) (s : DefaultScheduler) (url : Url)
      (r : Restrict.RestrictUploadScheduler × UploadReq × Option ℕ)
      → r.1.file_storage ≡ req.file_storage
      → (req.file_storage == "") ≡ false
      → parse req.file_storage ≡ ok url
      → to_lower url.scheme ≡ "file"
      → ((route parse nm s r).1
          ≡ (elim r.2 [ some u ↦ ok (some u) | none ↦ its_node (get_by_nid nm url.host) ]))
        × ((route parse nm s r).0.u_proxy ≡ s.u_proxy)
  unfolding route
  route_stored nm req s url (rest, req', some u) k e p f = (refl, refl)
  route_stored nm req s url (rest, req', none) k e p f =
      let s' = record s { u_restrict = rest } in
      let done : route parse nm s (rest, req', none) ≡ (s', its_node (get_by_nid nm url.host)) =
        ap
          (λ st.
            if st == ""
            then (
              record s' { u_proxy = (dispatch_rr nm req' s.u_proxy).0 },
              found (dispatch_rr nm req' s.u_proxy).1,
            )
            else same_node (dispatch_download parse nm st s'))
          k
        ∙ ap
            (λ b.
              if b
              then (
                record s' { u_proxy = (dispatch_rr nm req' s.u_proxy).0 },
                found (dispatch_rr nm req' s.u_proxy).1,
              )
              else same_node (dispatch_download parse nm req.file_storage s'))
            e
        ∙ ap same_node (dispatch_download_file nm req.file_storage s' url e p f)
        ∙ same_node_found s' (get_by_nid nm url.host) in
      (
        ap (λ (r : DefaultScheduler × Result (Option ℕ)). r.1) done,
        ap (λ (r : DefaultScheduler × Result (Option ℕ)). r.0.u_proxy) done,
      )

  -- An upload whose file is stored on a node already goes to the node that the restricted scheduler
  -- names, or else to the node that stores it, or fails; it never moves the queue of all nodes.
  pub dispatch_upload_stored :
      (now : ℕ) (nm : NodeManager Db) (req : UploadReq) (s : DefaultScheduler) (url : Url)
      → (req.file_storage == "") ≡ false
      → parse req.file_storage ≡ ok url
      → to_lower url.scheme ≡ "file"
      → ((dispatch_upload parse now nm req s).1
          ≡ (elim (Restrict.dispatch_upload now nm req s.u_restrict).2 [
            | some u ↦ ok (some u)
            | none ↦ its_node (get_by_nid nm url.host)
          ]))
        × ((dispatch_upload parse now nm req s).0.u_proxy ≡ s.u_proxy)
  unfolding dispatch_upload
  dispatch_upload_stored now nm req s url e p f =
      route_stored nm req s url _ (req_kept now nm req s.u_restrict) e p f

-- ===== src/Schedulers/Default.antt =====
-- transfer/task/default_scheduler.go, rr_upload.go and file.go: the scheduler that puts the others
-- together. `url.Parse` of Go's library is a parameter.
use codemigrate.Prelude.{ℕ, String, Option, none, some, ◌==◌, string_eq, nat_eq, if◌then◌else◌}
use codemigrate.Prelude.Text.{to_lower}
use codemigrate.Errors.{Result, ok, err, no_storage, unsupported_url, not_same_node}
use codemigrate.Nodes.{
  NodeManager, NodeEvent, on_add_node, on_del_node, on_node_zone_change, get_by_nid,
}
use codemigrate.RoundRobin.{RoundRobinScheduler}
use codemigrate.RoundRobin
use codemigrate.Schedulers.{UploadReq, filte_unit_by_size}
use codemigrate.Schedulers.Restrict
use codemigrate.Schedulers.Restrict.{RestrictUploadScheduler}
use codemigrate.Schedulers.Nas
use codemigrate.Schedulers.Nas.{NasRoundRobinScheduler}

pub record Url : Type 0 where
  pub scheme : String
  pub host : String

pub record DefaultScheduler : Type 0 where
  pub u_restrict : RestrictUploadScheduler
  pub u_proxy : RoundRobinScheduler ℕ
  pub d_nas : NasRoundRobinScheduler

-- `AddNode` and `DelNode` of rr_upload.go; a change of zone does nothing there.
unfoldable pub observe_nodes : NodeEvent → RoundRobinScheduler ℕ → RoundRobinScheduler ℕ
observe_nodes (on_add_node n zid) s = RoundRobin.put s (some n)
observe_nodes (on_del_node n zid) s = RoundRobin.pop s (some n)
observe_nodes (on_node_zone_change n old_zid new_zid) s = s

-- A node that may be nil, from a scheduler that always returns one.
abbrev pub found : Result ℕ → Result (Option ℕ)
found (ok u) = ok (some u)
found (err e) = err e

-- `DispatchUpload` of rr_upload.go.
unfoldable pub dispatch_rr :
    {Db : Type 0}
    → NodeManager Db
    → UploadReq
    → RoundRobinScheduler ℕ
    → RoundRobinScheduler ℕ × Result ℕ
dispatch_rr nm req s = RoundRobin.get s (some (filte_unit_by_size nm req))

abbrev pub same_node : DefaultScheduler × Result (Option ℕ) → DefaultScheduler × Result (Option ℕ)
same_node (s, ok (some u)) = (s, ok (some u))
same_node (s, ok none) = (s, err not_same_node)
same_node (s, err e) = (s, err not_same_node)

module _ {Db : Type 0} (parse : String → Result Url) where
  -- `dispatchDownload`. A node that is not connected is nil without an error under `file`.
  unfoldable pub dispatch_download :
      NodeManager Db → String → DefaultScheduler → DefaultScheduler × Result (Option ℕ)
  dispatch_download nm storage s =
      if storage == "" then (s, err no_storage) else elim (parse storage) [
        | err e ↦ (s, err e)
        | ok url ↦
            let scheme = to_lower url.scheme in
            let (nas, r) = Nas.dispatch url.host s.d_nas in
            if scheme == "file"
            then (s, ok (get_by_nid nm url.host))
            else if scheme == "nas"
            then (record s { d_nas = nas }, found r)
            else (s, err unsupported_url)
      ]

  -- What follows the restricted scheduler, whose scheduler, request and node these are: a file with a
  -- storage goes back to it, any other to the next node with room.
  unfoldable pub route :
      NodeManager Db
      → DefaultScheduler
      → RestrictUploadScheduler × UploadReq × Option ℕ
      → DefaultScheduler × Result (Option ℕ)
  unfolding dispatch_download dispatch_rr
  route nm s (restricted, req, some u) = (record s { u_restrict = restricted }, ok (some u))
  route nm s (restricted, req, none) =
      let s' = record s { u_restrict = restricted } in
      let (proxy, r) = dispatch_rr nm req s.u_proxy in
      if req.file_storage == ""
      then (record s' { u_proxy = proxy }, found r)
      else same_node (dispatch_download nm req.file_storage s')

  -- `DispatchUpload`.
  unfoldable pub dispatch_upload :
      ℕ → NodeManager Db → UploadReq → DefaultScheduler → DefaultScheduler × Result (Option ℕ)
  unfolding route
  dispatch_upload now nm req s = route nm s (Restrict.dispatch_upload now nm req s.u_restrict)

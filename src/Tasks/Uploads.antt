-- ===== src/Tasks/Uploads.antt =====
-- transfer/task/task.go: how the dispatch of an upload ends.
use codemigrate.Prelude.{
  ℕ, String, ◌≡◌, refl, Option, none, some, true, false, not, ◌&&◌, ◌==◌, nat_eq, string_eq, by_if,
  by_option, ==_self,
}
use codemigrate.Prelude.Text.{to_lower}
use codemigrate.Prelude.GoMap.{get}
use codemigrate.Errors.{Error, Result, ok, err, by_result}
use codemigrate.TaskTypes.{Task}
use codemigrate.Nodes.{Outcome, returns, panics, PendingReq, NodeManager, node_at}
use codemigrate.Nodes.Closing.{node_at-set_node}
use codemigrate.Nodes.Messages.{send_request, end_request}
use codemigrate.Schedulers.{UploadReq}
use codemigrate.Schedulers.Restrict
use codemigrate.Schedulers.Restrict.{GetId, id_of_req, Resource}
use codemigrate.Schedulers.Default
use codemigrate.Schedulers.Default.{Url, DefaultScheduler, dispatch_download}
use codemigrate.Tasks.Dispatch.{System, Answer}

module _ {Db : Type 0} where
  pub nid_sent :
      (u : ℕ) (nm : NodeManager Db) → (node_at (send_request u nm).0 u).nid ≡ (node_at nm u).nid
  unfolding send_request
  nid_sent u nm = rw (node_at-set_node nm u u _, ==_self u) refl

  pub nid_ended :
      (u seq : ℕ) (nm : NodeManager Db)
      → (node_at (end_request u seq nm) u).nid ≡ (node_at nm u).nid
  unfolding end_request
  nid_ended u seq nm =
      by_option {A = PendingReq} (λ (m : NodeManager Db). (node_at m u).nid ≡ (node_at nm u).nid)
        (get (node_at nm u).pending_reqs seq) refl
        (λ req _.
          by_if (λ (m : NodeManager Db). (node_at m u).nid ≡ (node_at nm u).nid)
            (req.is_closed && not req.has_rsp) (λ _. refl)
            (λ _. rw (node_at-set_node nm u u _, ==_self u) refl))

  pub u_restrict-dispatch_download :
      (parse : String → Result Url) (nm : NodeManager Db) (storage : String) (s : DefaultScheduler)
      → (dispatch_download parse nm storage s).0.u_restrict ≡ s.u_restrict
  unfolding dispatch_download
  u_restrict-dispatch_download parse nm storage s =
      let P : DefaultScheduler × Result (Option ℕ) → Type 0 = λ q. q.0.u_restrict ≡ s.u_restrict in
      by_if P (storage == "") (λ _. refl)
        (λ _.
          by_result P (parse storage) (λ e _. refl)
            (λ url _.
              by_if P (to_lower url.scheme == "file") (λ _. refl)
                (λ _. by_if P (to_lower url.scheme == "nas") (λ _. refl) (λ _. refl))))

-- An answer that accepts the task and has no body.
abbrev pub Bodiless : Result Answer → Type 0
Bodiless r = (a : Answer) × (r ≡ ok a) × (a.is_ok ≡ true) × (a.recomend_bitrate ≡ none)

-- How a dispatch ends: with an error and the tasks as they were, with a node, the new task stored for
-- it, and the package or file bound to it, or in a panic over the answer of a node.
pub data UploadCase {Db NodeDb : Type 0} (now : ℕ) (g : GetId) (req : UploadReq)
    (sys : System Db NodeDb) (answer : ℕ → Result Answer)
    (r : Outcome (System Db NodeDb × Result ℕ)) : Type 0 where
  bodiless : (u : ℕ) → Bodiless (answer u) → r ≡ panics → UploadCase now g req sys answer r
  refused :
      (sys' : System Db NodeDb) (e : Error)
      → r ≡ returns (sys', err e)
      → sys'.tasks ≡ sys.tasks
      → UploadCase now g req sys answer r
  given :
      (sys' : System Db NodeDb) (u : ℕ) (t : Task)
      → r ≡ returns (sys', ok u)
      → get sys'.tasks.tasks req.task_id ≡ some (some t)
      → t.node_id ≡ (node_at sys.nodes u).nid
      → ((t.node_id == "") ≡ false
          → get sys'.scheduler.u_restrict.resource (id_of_req g req)
            ≡ some (record { nid = t.node_id; timestamp = now; expire = 300 }))
      → UploadCase now g req sys answer r

-- ===== src/Tasks/Counting.antt =====
-- transfer/task/task.go: the counts of tasks that a node carries.
use codemigrate.Prelude.{
  ℕ, ◌+◌, ◌-◌, String, ◌≡◌, refl, ap, ◌∙◌, none, some, Bool, true, false, arith, ◌==◌, nat_eq,
  string_eq, if◌then◌else◌, by_if, ==_iff, ==_self,
}
use codemigrate.Prelude.GoMap.{get, delete, get-put_self, get-delete_self}
use codemigrate.Prelude.Int.{pos, negsuc}
use codemigrate.Cydex.{TransferType, upload, download, unknown}
use codemigrate.TaskTypes.{Task}
use codemigrate.Nodes.{Node, NodeManager, node_at, set_node, get_by_nid, add_task_cnt}
use codemigrate.Nodes.Closing.{node_at-set_node}
use codemigrate.Tasks.{TaskEngine, TaskManager, tell, count_task, zone_of, add_task, del_task}

add_task_cnt_back :
    (typ : TransferType) (n : Node) → add_task_cnt typ (negsuc 0) (add_task_cnt typ (pos 1) n) ≡ n
unfolding add_task_cnt
add_task_cnt_back upload n =
    let same : n.info.upload_task_cnt + 1 - 1 ≡ n.info.upload_task_cnt = omega arith in
    ap (λ c. record n { info = record (n.info) { upload_task_cnt = c } }) same
add_task_cnt_back download n =
    let same : n.info.download_task_cnt + 1 - 1 ≡ n.info.download_task_cnt = omega arith in
    ap (λ c. record n { info = record (n.info) { download_task_cnt = c } }) same
add_task_cnt_back (unknown k) n = refl

module _ {NodeDb : Type 0} where
  count_some :
      (more : Bool) (t : Task) (nm : NodeManager NodeDb) (r : ℕ)
      → get_by_nid nm t.node_id ≡ some r
      → count_task more t nm
        ≡ set_node r (add_task_cnt t.typ (if more then pos 1 else negsuc 0) (node_at nm r)) nm
  unfolding count_task
  count_some more t nm r e = rw (e, count_task) refl

  count_back :
      (t : Task) (nm : NodeManager NodeDb) (r q : ℕ)
      → get_by_nid nm t.node_id ≡ some r
      → node_at (count_task false t (count_task true t nm)) q ≡ node_at nm q
  unfolding get_by_nid set_node
  count_back t nm r q e =
      let n' = add_task_cnt t.typ (pos 1) (node_at nm r) in
      let nm1 = set_node r n' nm in
      let at_r : node_at nm1 r ≡ n' =
        node_at-set_node nm r r n' ∙ ap (λ b. if b then n' else node_at nm r) (==_self r) in
      let back : add_task_cnt t.typ (negsuc 0) (node_at nm1 r) ≡ node_at nm r =
        ap (add_task_cnt t.typ (negsuc 0)) at_r ∙ add_task_cnt_back t.typ (node_at nm r) in
      ap (λ m. node_at (count_task false t m) q) (count_some true t nm r e)
      ∙ ap (λ m. node_at m q) (count_some false t nm1 r e)
      ∙ node_at-set_node nm1 r q (add_task_cnt t.typ (negsuc 0) (node_at nm1 r))
      ∙ by_if (λ n. n ≡ node_at nm q) (r == q)
          (λ same. back ∙ ap (node_at nm) ((==_iff r q).0 same))
          (λ other. node_at-set_node nm r q n' ∙ ap (λ b. if b then n' else node_at nm q) other)

module _ (x : TaskEngine) {NodeDb : Type 0} where
  open x use {Db}

  del_task_found :
      (taskid : String) (t : Task) (tm : TaskManager Db) (nm : NodeManager NodeDb)
      → get tm.tasks taskid ≡ some (some t)
      → ((del_task x taskid tm nm).1 ≡ count_task false t nm)
        × ((del_task x taskid tm nm).0.tasks ≡ delete tm.tasks taskid)
  unfolding del_task tell
  del_task_found taskid t tm nm e = (rw (e, del_task) refl, rw (e, del_task) refl)

  -- A task that is added and deleted again leaves every node, its counts included, as it was, and the
  -- manager without it, if its node is connected all along.
  pub del_task-add_task :
      (now : ℕ) (t : Task) (tm : TaskManager Db) (nm : NodeManager NodeDb) (r q : ℕ)
      → get_by_nid nm t.node_id ≡ some r
      → (node_at (del_task x t.task_id (add_task x now t tm nm).0 (add_task x now t tm nm).1).1 q
          ≡ node_at nm q)
        × (get
              (del_task x t.task_id (add_task x now t tm nm).0 (add_task x now t tm nm).1).0.tasks
              t.task_id
            ≡ none)
  unfolding add_task tell count_task node_at
  del_task-add_task now t tm nm r q e =
      let t' : Task = record t { timestamp = now; zone_id = zone_of t nm } in
      let tm1 = (add_task x now t tm nm).0 in
      let (counted, gone) =
        del_task_found t.task_id t' tm1 (count_task true t nm)
          (get-put_self tm.tasks t.task_id (some t')) in
      (
        ap (λ m. node_at m q) counted ∙ count_back t' nm r q e,
        ap (λ m. get m t.task_id) gone ∙ get-delete_self tm1.tasks t.task_id,
      )

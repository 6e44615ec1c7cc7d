-- ===== src/Schedulers/Restrict/Affinity.antt =====
-- transfer/task/restrict.go: how long an upload's node is kept.
use codemigrate.Prelude.{
  ℕ, ◌-◌, String, ◌≡◌, refl, ap, ◌∙◌, none, some, Bool, true, false, arith, leb, ◌==◌, string_eq,
  if◌then◌else◌, by_if, by_option,
}
use codemigrate.Prelude.GoMap.{
  get, put, retain, accepted, get-put_self, get-retain, Distinct, put-Distinct, retain-Distinct,
}
use codemigrate.Cydex.{upload, is_upload}
use codemigrate.TaskTypes.{Task}
use codemigrate.Nodes.{Outcome, returns, panics, NodeManager}
use codemigrate.Schedulers.{UploadReq, get_req_size}
use codemigrate.Schedulers.Restrict.{
  Resource, XidResource, update, is_live, del_expired, add, GetId, get_pid, get_fid, id_of_task,
  id_of_req, RestrictUploadScheduler, suitable, choose, dispatch_upload, add_task,
}

update-Distinct :
    (now : ℕ) (xid nid : String) (m : XidResource) → Distinct m → Distinct (update now xid nid m)
unfolding update
update-Distinct now xid nid m d =
    by_if (λ (q : XidResource). Distinct q) (nid == "") (λ _. d)
      (λ _.
        by_option {A = Resource} (λ (q : XidResource). Distinct q) (get m xid) d
          (λ r _.
            by_if (λ (q : XidResource). Distinct q) (r.nid == nid)
              (λ _. put-Distinct m xid (record r { timestamp = now }) d) (λ _. d)))

pub add-Distinct :
    (now : ℕ) (xid nid : String) (e : ℕ) (m : XidResource)
    → Distinct m
    → Distinct (add now xid nid e m)
unfolding add del_expired
add-Distinct now xid nid e m d =
    let u = update now xid nid m in
    let r : Resource = record { nid = nid; timestamp = now; expire = e } in
    let kept =
      put-Distinct (retain (is_live now) u) xid r
        (retain-Distinct (is_live now) u (update-Distinct now xid nid m d)) in
    ground (arith, d, kept)

pub get-add :
    (now : ℕ) (xid nid : String) (e : ℕ) (m : XidResource)
    → (nid == "") ≡ false
    → get (add now xid nid e m) xid ≡ some (record { nid = nid; timestamp = now; expire = e })
unfolding add
get-add now xid nid e m h =
    let r : Resource = record { nid = nid; timestamp = now; expire = e } in
    let kept = del_expired now (update now xid nid m) in
    ap (λ b. get (if b then m else put kept xid r) xid) h ∙ get-put_self kept xid r

live_after :
    (now now' e : ℕ) (nid : String) (r : Resource)
    → r ≡ record { nid = nid; timestamp = now; expire = e }
    → accepted (is_live now') (some r) ≡ (if leb (now' - now) e then some r else none)
live_after now now' e nid r h = ground (arith, h)

get-del_expired :
    (now now' : ℕ) (xid nid : String) (e : ℕ) (m : XidResource)
    → Distinct m
    → (nid == "") ≡ false
    → get (del_expired now' (add now xid nid e m)) xid ≡ (
        if leb (now' - now) e
        then some (record { nid = nid; timestamp = now; expire = e })
        else none)
unfolding del_expired
get-del_expired now now' xid nid e m d h =
    get-retain (is_live now') (add now xid nid e m) xid (add-Distinct now xid nid e m d)
    ∙ ap (accepted (is_live now')) (get-add now xid nid e m h)
    ∙ live_after now now' e nid _ refl

pub add_task_kept :
    (now : ℕ) (t : Task) (s : RestrictUploadScheduler) (g : GetId)
    → t.typ ≡ upload
    → s.get_id ≡ some g
    → add_task now t s
      ≡ returns (record s { resource = add now (id_of_task g t) t.node_id 300 s.resource })
unfolding add_task
add_task_kept now t s g up e =
    let kept : GetId → Outcome RestrictUploadScheduler =
      λ k. returns (record s { resource = add now (id_of_task k t) t.node_id 300 s.resource }) in
    ap
      (λ typ.
        if is_upload typ then elim s.get_id [ none ↦ panics | some k ↦ kept k ] else returns s)
      up
    ∙ ap (λ q. elim q [ none ↦ panics | some k ↦ kept k ]) e

module _ {Db : Type 0} where
  choose_kept :
      (nm : NodeManager Db) (size now e : ℕ) (nid : String) (b : Bool)
      → (nid == "") ≡ false
      → choose nm size
          (if b then some (record { nid = nid; timestamp = now; expire = e }) else none)
        ≡ (if b then suitable nm size nid else none)
  choose_kept nm size now e nid true h = rw h refl
  choose_kept nm size now e nid false h = refl

  dispatch_upload_kept :
      (now : ℕ) (nm : NodeManager Db) (req : UploadReq) (s : RestrictUploadScheduler) (g : GetId)
      → s.get_id ≡ some g
      → (dispatch_upload now nm req s).2
        ≡ choose nm
            (get_req_size (record req { restrict_mode = s.restrict_mode }))
            (get (del_expired now s.resource) (id_of_req g req))
  unfolding dispatch_upload
  dispatch_upload_kept now nm req s get_pid e = rw (e, dispatch_upload) refl
  dispatch_upload_kept now nm req s get_fid e = rw (e, dispatch_upload) refl

  -- A node that took an upload takes the next one of the same package or file, by the mode that is set,
  -- if it comes within 300 seconds, the node is connected and it has more room than the request needs;
  -- else the restricted scheduler has no node for it.
  pub dispatch_upload-add_task :
      (now now' : ℕ) (t : Task) (s : RestrictUploadScheduler) (g : GetId) (nm : NodeManager Db)
      (req : UploadReq)
      → Distinct s.resource
      → t.typ ≡ upload
      → (t.node_id == "") ≡ false
      → s.get_id ≡ some g
      → id_of_req g req ≡ id_of_task g t
      → (s' : RestrictUploadScheduler) × (add_task now t s ≡ returns s')
        × ((dispatch_upload now' nm req s').2 ≡ (
            if leb (now' - now) 300
            then suitable nm
                (get_req_size (record req { restrict_mode = s.restrict_mode }))
                t.node_id
            else none))
  dispatch_upload-add_task now now' t s g nm req d up h e same =
      let size = get_req_size (record req { restrict_mode = s.restrict_mode }) in
      let m = add now (id_of_task g t) t.node_id 300 s.resource in
      (
        record s { resource = m },
        add_task_kept now t s g up e,
        dispatch_upload_kept now' nm req (record s { resource = m }) g e
            ∙ ap (choose nm size) (
                ap (get (del_expired now' m)) same
                ∙ get-del_expired now now' (id_of_task g t) t.node_id 300 s.resource d h)
            ∙ choose_kept nm size now 300 t.node_id (leb (now' - now) 300) h,
      )

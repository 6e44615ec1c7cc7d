-- ===== src/Schedulers/Nas/Zones.antt =====
-- transfer/task/nas_rr.go: no zone stays without nodes, so that a known zone always has one to give.
use mathlib.Core.List.{Memᴰ}
use codemigrate.Prelude.{
  ℕ, ◌<◌, String, List, [], ◌∷◌, ◌++◌, ◌≡◌, refl, ap, inl, inr, none, some, arith, length,
  length-append, ltb, ◌==◌, string_eq, nat_eq, if◌then◌else◌, by_if, by_option, Option-cases,
}
use codemigrate.Prelude.GoMap.{GoMap, get, put, delete, get-put, get-delete}
use codemigrate.Errors.{Result, ok, err, no_such_zone}
use codemigrate.Nodes.{NodeEvent, on_add_node, on_del_node, on_node_zone_change}
use codemigrate.RoundRobin.{RoundRobinScheduler}
use codemigrate.RoundRobin
use codemigrate.RoundRobin.Rotation.{fails, rotates, get-GetCase, Rejected}
use codemigrate.Schedulers.Nas.{
  NasRoundRobinScheduler, new_nas_round_robin_scheduler, zone_queue, zone_add_node, zone_del_node,
  observe, dispatch,
}

-- Every zone of the map has a node.
abbrev pub AllStaffed : GoMap String (RoundRobinScheduler ℕ) → Type 0
AllStaffed m =
    (zid : String) (q : RoundRobinScheduler ℕ) → get m zid ≡ some q → 0 < length q.unit_queue

put-AllStaffed :
    (m : GoMap String (RoundRobinScheduler ℕ)) (zid : String) (q : RoundRobinScheduler ℕ)
    → AllStaffed m
    → 0 < length q.unit_queue
    → AllStaffed (put m zid q)
put-AllStaffed m zid q h l z q' e = ground (arith, get-put m zid q z, h z q', l, e)

delete-AllStaffed :
    (m : GoMap String (RoundRobinScheduler ℕ)) (zid : String)
    → AllStaffed m
    → AllStaffed (delete m zid)
delete-AllStaffed m zid h z q' e = ground (arith, get-delete m zid z, h z q', e)

abbrev IsStaffed : NasRoundRobinScheduler → Type 0
IsStaffed s = AllStaffed s.zone_schds

zone_add_node-IsStaffed :
    (zid : String) (n : ℕ) (s : NasRoundRobinScheduler)
    → IsStaffed s
    → IsStaffed (zone_add_node zid n s)
unfolding zone_add_node RoundRobin.put
zone_add_node-IsStaffed zid n s h =
    let q = zone_queue (get s.zone_schds zid) in
    by_if IsStaffed (zid == "") (λ _. h)
      (λ _.
        put-AllStaffed s.zone_schds zid (record { unit_queue = q.unit_queue ++ n ∷ [] }) h
          (omega (arith, length-append q.unit_queue (n ∷ []))))

zone_del_node-IsStaffed :
    (zid : String) (n : ℕ) (s : NasRoundRobinScheduler)
    → IsStaffed s
    → IsStaffed (zone_del_node zid n s)
unfolding zone_del_node RoundRobin.num_units
zone_del_node-IsStaffed zid n s h =
    by_option {A = RoundRobinScheduler ℕ} IsStaffed (get s.zone_schds zid) h (λ q _.
      by_if IsStaffed (ltb 0 (length (RoundRobin.pop q (some n)).unit_queue))
        (λ e. put-AllStaffed s.zone_schds zid (RoundRobin.pop q (some n)) h (ground (arith, e)))
        (λ _. delete-AllStaffed s.zone_schds zid h))

observe-IsStaffed :
    (e : NodeEvent) (s : NasRoundRobinScheduler) → IsStaffed s → IsStaffed (observe e s)
unfolding observe
observe-IsStaffed (on_add_node n zid) s h =
    by_if IsStaffed (zid == "") (λ _. h) (λ _. zone_add_node-IsStaffed zid n s h)
observe-IsStaffed (on_del_node n zid) s h =
    by_if IsStaffed (zid == "") (λ _. h) (λ _. zone_del_node-IsStaffed zid n s h)
observe-IsStaffed (on_node_zone_change n old_zid new_zid) s h =
    let s' = if old_zid == "" then s else zone_del_node old_zid n s in
    let h' : IsStaffed s' =
      by_if IsStaffed (old_zid == "") (λ _. h) (λ _. zone_del_node-IsStaffed old_zid n s h) in
    by_if IsStaffed (new_zid == "") (λ _. h') (λ _. zone_add_node-IsStaffed new_zid n s' h')

length_middle : {A : Type 0} (pre : List A) (u : A) (post : List A) → 0 < length (pre ++ u ∷ post)
length_middle [] u post = omega arith
length_middle (x ∷ pre) u post = omega arith

mem_middle : {A : Type 0} (pre : List A) (u : A) (post : List A) → Memᴰ u (pre ++ u ∷ post)
mem_middle [] u post = Memᴰ.head refl
mem_middle (x ∷ pre) u post = Memᴰ.tail (mem_middle pre u post)

-- With no filter a queue that is not empty always gives a unit of its own.
get-Staffed :
    (q : RoundRobinScheduler ℕ)
    → 0 < length q.unit_queue
    → (n : ℕ) × ((RoundRobin.get q none).1 ≡ ok n)
      × Memᴰ n q.unit_queue
      × (0 < length (RoundRobin.get q none).0.unit_queue)
unfolding RoundRobin.accepts
get-Staffed q h = elim (get-GetCase q none) [
  | fails all e ↦ absurd (nothing_rejected q.unit_queue h all)
  | rotates pre u post split all hit e ↦ (
    u,
    ap (λ (r : RoundRobinScheduler ℕ × Result ℕ). r.1) e,
    rw split (mem_middle pre u post),
    rw e (length_middle (pre ++ post) u []),
  )
]
  where
    nothing_rejected : (l : List ℕ) → 0 < length l → Rejected (RoundRobin.accepts none) l → ⊥
    nothing_rejected [] h all = absurd (omega arith)
    nothing_rejected (x ∷ l) h all = cc

dispatch-IsStaffed :
    (zid : String) (s : NasRoundRobinScheduler) → IsStaffed s → IsStaffed (dispatch zid s).0
unfolding dispatch
dispatch-IsStaffed zid s h =
    by_option {A = RoundRobinScheduler ℕ} (λ (r : NasRoundRobinScheduler × Result ℕ). IsStaffed r.0)
      (get s.zone_schds zid) h
      (λ q e.
        put-AllStaffed s.zone_schds zid (RoundRobin.get q none).0 h (get-Staffed q (h zid q e)).3)

-- What reaches the scheduler: an event of the node manager, or a download for a zone.
pub data NasCall : Type 0 where
  told : NodeEvent → NasCall
  asked : String → NasCall

abbrev pub serve : List NasCall → NasRoundRobinScheduler → NasRoundRobinScheduler
serve [] s = s
serve (told e ∷ calls) s = serve calls (observe e s)
serve (asked zid ∷ calls) s = serve calls (dispatch zid s).0

serve-IsStaffed :
    (calls : List NasCall) (s : NasRoundRobinScheduler) → IsStaffed s → IsStaffed (serve calls s)
serve-IsStaffed [] s h = h
serve-IsStaffed (told e ∷ calls) s h = serve-IsStaffed calls _ (observe-IsStaffed e s h)
serve-IsStaffed (asked zid ∷ calls) s h = serve-IsStaffed calls _ (dispatch-IsStaffed zid s h)

new-IsStaffed : IsStaffed new_nas_round_robin_scheduler
unfolding get
new-IsStaffed zid q e = cc

-- How a request for a zone ends.
pub data DispatchCase (zid : String) (s : NasRoundRobinScheduler) : Type 0 where
  unknown_zone :
      get s.zone_schds zid ≡ none → dispatch zid s ≡ (s, err no_such_zone) → DispatchCase zid s
  served :
      (q : RoundRobinScheduler ℕ) (n : ℕ)
      → get s.zone_schds zid ≡ some q
      → Memᴰ n q.unit_queue
      → (dispatch zid s).1 ≡ ok n
      → DispatchCase zid s

dispatch-DispatchCase :
    (zid : String) (s : NasRoundRobinScheduler) → IsStaffed s → DispatchCase zid s
unfolding dispatch
dispatch-DispatchCase zid s h = elim (Option-cases (get s.zone_schds zid)) [
  | inl e ↦ unknown_zone e (rw (e, dispatch) refl)
  | inr (q, e) ↦ let r = get-Staffed q (h zid q e) in served q r.0 e r.2 (rw (e, dispatch) r.1)
]

-- Whatever nodes have come, gone or changed their zone, and whatever downloads were given out, a download
-- for a zone fails only if the scheduler knows no node of it; else a node of the zone's queue takes it.
pub serve-DispatchCase :
    (calls : List NasCall) (zid : String)
    → DispatchCase zid (serve calls new_nas_round_robin_scheduler)
serve-DispatchCase calls zid =
    dispatch-DispatchCase zid _ (serve-IsStaffed calls new_nas_round_robin_scheduler new-IsStaffed)

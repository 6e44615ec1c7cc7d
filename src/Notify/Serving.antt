-- ===== src/Notify/Serving.antt =====
-- notify/notify.go: `Serve`. A turn of the loop takes an event, and a goroutine that publishes one ends at
-- any time. Lists have the newest entry first.
use mathlib.Core.List.{Perm}
use mathlib.Core.List.Perm
use codemigrate.Prelude.{
  ℕ, zero, suc, ◌≤◌, ◌<◌, List, [], ◌∷◌, ◌++◌, map, Option, none, some, Bool, ltb, nat_eq, length,
  All, if◌then◌else◌,
}
use codemigrate.Models.Engine.{Engine}
use codemigrate.Nodes.{Outcome, returns, and_then}
use codemigrate.Notify.{NotifyManage, PkgEvent, Fate, dropped, UserEngine, publish_pkg_event}
use codemigrate.Notify.Publishing.{Completes}

-- The events that are being published, and those that nothing more is done with.
pub record ServeState : Type 0 where
  pub running : List PkgEvent
  pub over : List (PkgEvent × Fate)

abbrev pub at_rest : ServeState
at_rest = record { running = []; over = [] }

-- The entry at an index, and the list without it.
unfoldable pub pick : ℕ → List PkgEvent → Option (PkgEvent × List PkgEvent)
pick i [] = none
pick zero (ev ∷ evs) = some (ev, evs)
pick (suc i) (ev ∷ evs) = elim (pick i evs) [ none ↦ none | some q ↦ some (q.0, ev ∷ q.1) ]

module _ (x : Engine) (y : UserEngine) where
  -- `ends` names a goroutine, the databases that it reads and the answers to its tries.
  pub data Turn : Type 0 where
    takes : PkgEvent → Turn
    ends : ℕ → x.Db → y.Db → List Bool → Turn

  -- The semaphore has room for `max_ev_processer` goroutines; an event that finds none is dropped.
  unfoldable pub turn : NotifyManage → Turn → ServeState → Outcome ServeState
  unfolding pick publish_pkg_event
  turn m (takes ev) s =
      if ltb (length s.running) m.max_ev_processer
      then returns (record s { running = ev ∷ s.running })
      else returns (record s { over = (ev, dropped) ∷ s.over })
  turn m (ends i db users answers) s = elim (pick i s.running) [
    | none ↦ returns s
    | some q ↦
        and_then (publish_pkg_event x y m db users answers q.0)
          (λ fate. returns (record { running = q.1; over = (q.0, fate) ∷ s.over }))
  ]

  unfoldable pub serve : NotifyManage → List Turn → ServeState → Outcome ServeState
  unfolding turn
  serve m [] s = returns s
  serve m (t ∷ ts) s = and_then (turn m t s) (λ s'. serve m ts s')

  -- The events that the turns take, after those taken before.
  abbrev pub taken : List Turn → List PkgEvent → List PkgEvent
  taken [] evs = evs
  taken (takes ev ∷ ts) evs = taken ts (ev ∷ evs)
  taken (ends i db users answers ∷ ts) evs = taken ts evs

abbrev events : ServeState → List PkgEvent
events s = s.running ++ map (λ (e : PkgEvent × Fate). e.0) s.over

-- No more goroutines run than configured; the events that were taken are those that are being published
-- and those that were published, given up or dropped, each once; and each was published as itself.
pub record IsServed (m : NotifyManage) (evs : List PkgEvent) (s : ServeState) : Type 0 where
  pub bound : length s.running ≤ m.max_ev_processer
  pub all : Perm (events s) evs
  pub own : All (λ (e : PkgEvent × Fate). Completes e.0 e.1) s.over

abbrev Picks : List PkgEvent → Option (PkgEvent × List PkgEvent) → Type 0
Picks evs none = Unit
Picks evs (some q) = Perm evs (q.0 ∷ q.1) × (length q.1 < length evs)

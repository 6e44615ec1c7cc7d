-- ===== src/RoundRobin.antt =====
-- transfer/task/roundrobin.go: the queue of scheduling units and its rotation. A unit is any type
-- that Go compares with `==`; the mutex makes each method one step.
pub mod Rotation
pub mod Fairness
use mathlib.Core.Option
use codemigrate.Prelude.{
  ℕ, zero, suc, List, [], ◌∷◌, ◌++◌, Option, none, some, Bool, true, false, length, Eq, ◌==◌,
  if◌then◌else◌,
}
use codemigrate.Errors.{Result, ok, err, no_valid_unit}

pub record RoundRobinScheduler {ℓ} (A : Type ℓ) : Type ℓ where
  pub unit_queue : List A

module _ {ℓ} {A : Type ℓ} where
  pub new_round_robin_scheduler : RoundRobinScheduler A
  new_round_robin_scheduler = record { unit_queue = [] }

  -- A filter of `none` is the nil filter.
  unfoldable pub accepts : Option (A → Bool) → A → Bool
  accepts none u = true
  accepts (some filter) u = filter u

  -- The loop of `Get`: the first unit that the filter accepts, and the queue without it.
  unfoldable pub take_first : (A → Bool) → List A → Option (A × List A)
  take_first p [] = none
  take_first p (u ∷ q) = elim (p u) [
    | true ↦ some (u, q)
    | false ↦ Option.map (λ r. (r.0, u ∷ r.1)) (take_first p q)
  ]

  -- `MoveToBack` puts the unit that was found at the end of the queue.
  unfoldable pub get : RoundRobinScheduler A → Option (A → Bool) → RoundRobinScheduler A × Result A
  unfolding take_first accepts
  get s filter = elim (take_first (accepts filter) s.unit_queue) [
    | none ↦ (s, err no_valid_unit)
    | some (u, rest) ↦ (record s { unit_queue = rest ++ u ∷ [] }, ok u)
  ]

  -- A nil unit is `none`.
  unfoldable pub put : RoundRobinScheduler A → Option A → RoundRobinScheduler A
  put s none = s
  put s (some u) = record s { unit_queue = s.unit_queue ++ u ∷ [] }

  unfoldable pub num_units : RoundRobinScheduler A → ℕ
  num_units s = length s.unit_queue

  unfoldable pub reset : RoundRobinScheduler A → RoundRobinScheduler A
  reset s = record s { unit_queue = [] }

module _ {ℓ} {A : Type ℓ} ⦃e : Eq A⦄ where
  -- The loop of `Pop`: removes the first element that is the unit.
  unfoldable pub remove_first : A → List A → List A
  remove_first u [] = []
  remove_first u (x ∷ q) = if x == u then q else x ∷ remove_first u q

  unfoldable pub pop : RoundRobinScheduler A → Option A → RoundRobinScheduler A
  unfolding remove_first
  pop s none = s
  pop s (some u) = record s { unit_queue = remove_first u s.unit_queue }

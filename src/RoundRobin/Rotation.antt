-- ===== src/RoundRobin/Rotation.antt =====
-- What one call of `Get` does to the queue of roundrobin.go.
use mathlib.Core.List.Perm
use mathlib.Core.List.{Perm, perm_middle, perm_append_singleton}
use codemigrate.Prelude.{
  List, [], ◌∷◌, ◌++◌, ◌≡◌, refl, ap, inl, inr, Option, none, some, Bool, true, false, All,
  Bool-cases, Eq, ◌==◌, ==_self,
}
use codemigrate.Errors.{Result, ok, err, no_valid_unit}
use codemigrate.RoundRobin.{RoundRobinScheduler, accepts, take_first, get, pop, remove_first}

module _ {ℓ} {A : Type ℓ} (p : A → Bool) where
  abbrev pub Rejected : List A → Type 0
  Rejected = All (λ x. p x ≡ false)

  -- How a search through a queue ends.
  pub data Finds (q : List A) (r : Option (A × List A)) : Type ℓ where
    missing : Rejected q → r ≡ none → Finds q r
    found :
        (pre : List A) (u : A) (post : List A)
        → q ≡ pre ++ u ∷ post
        → Rejected pre
        → p u ≡ true
        → r ≡ some (u, pre ++ post)
        → Finds q r

  Finds-cons :
      (x : A) (q : List A)
      → p x ≡ false
      → Finds q (take_first p q)
      → Finds (x ∷ q) (take_first p (x ∷ q))
  unfolding take_first
  Finds-cons x q h (missing all e) = missing (h, all) (rw (h, take_first) (rw e))
  Finds-cons x q h (found pre u post split all hit e) =
      found (x ∷ pre) u post (ap (◌∷◌ x) split) (h, all) hit (rw (h, take_first) (rw e))

  pub take_first-Finds : (q : List A) → Finds q (take_first p q)
  unfolding take_first
  take_first-Finds [] = missing tt refl
  take_first-Finds (x ∷ q) = elim (Bool-cases (p x)) [
    | inl hit ↦ found [] x q refl tt hit (rw (hit, take_first))
    | inr miss ↦ Finds-cons x q miss (take_first-Finds q)
  ]

module _ {ℓ} {A : Type ℓ} where
  -- `Get` fails only when every unit is rejected, and then changes nothing; else it returns the
  -- first accepted unit and moves it behind all others.
  pub data GetCase (s : RoundRobinScheduler A) (filter : Option (A → Bool))
      (r : RoundRobinScheduler A × Result A) : Type ℓ where
    fails : Rejected (accepts filter) s.unit_queue → r ≡ (s, err no_valid_unit) → GetCase s filter r
    rotates :
        (pre : List A) (u : A) (post : List A)
        → s.unit_queue ≡ pre ++ u ∷ post
        → Rejected (accepts filter) pre
        → accepts filter u ≡ true
        → r ≡ (record { unit_queue = (pre ++ post) ++ u ∷ [] }, ok u)
        → GetCase s filter r

  get_case :
      (s : RoundRobinScheduler A) (filter : Option (A → Bool))
      → Finds (accepts filter) s.unit_queue (take_first (accepts filter) s.unit_queue)
      → GetCase s filter (get s filter)
  unfolding get
  get_case s filter (missing all e) = fails all (rw (e, get))
  get_case s filter (found pre u post split all hit e) =
      rotates pre u post split all hit (rw (e, get))

  -- `Get` fails only when every unit is rejected, and then changes nothing; else it returns the first
  -- accepted unit and moves it behind all others, whose order it keeps.
  pub get-GetCase :
      (s : RoundRobinScheduler A) (filter : Option (A → Bool)) → GetCase s filter (get s filter)
  get-GetCase s filter = get_case s filter (take_first-Finds (accepts filter) s.unit_queue)

  -- `Get` never adds, drops or duplicates a unit.
  pub get-perm :
      (s : RoundRobinScheduler A) (filter : Option (A → Bool))
      → Perm (get s filter).0.unit_queue s.unit_queue
  get-perm s filter = elim (get-GetCase s filter) [
    | fails all e ↦ rw e (Perm.refl s.unit_queue)
    | rotates pre u post split all hit e ↦
        rw (e, split)
          (Perm.trans (perm_append_singleton u (pre ++ post)) (Perm.symm (perm_middle pre post)))
  ]

module _ {ℓ} {A : Type ℓ} ⦃e : Eq A⦄ where
  remove_first_middle :
      (u : A) (pre post : List A)
      → All (λ x. (x == u) ≡ false) pre
      → remove_first u (pre ++ u ∷ post) ≡ pre ++ post
  unfolding remove_first
  remove_first_middle u [] post h = rw (==_self u)
  remove_first_middle u (x ∷ pre) post h = rw h.0 (ap (◌∷◌ x) (remove_first_middle u pre post h.1))

  -- `Pop` of a unit takes out the first entry that is the unit and keeps the order of the others.
  pub pop-middle :
      (u : A) (pre post : List A)
      → All (λ x. (x == u) ≡ false) pre
      → pop (record { unit_queue = pre ++ u ∷ post }) (some u) ≡ record { unit_queue = pre ++ post }
  unfolding pop
  pop-middle u pre post h = rw (remove_first_middle u pre post h)

-- ===== src/RoundRobin/Fairness.antt =====
-- Fairness of the rotation of roundrobin.go over repeated calls of `Get`.
use mathlib.Core.List.{Memᴰ, append_assoc, append-nil}
use codemigrate.Prelude.{
  ℕ, zero, suc, ◌<◌, List, [], ◌∷◌, ◌++◌, ◌≡◌, refl, sym, ap, ◌∙◌, ◌⊎◌, inl, inr, Option, none,
  some, Bool, true, arith, Bool-cases, length,
}
use codemigrate.Errors.{Result, ok, err}
use codemigrate.RoundRobin.{RoundRobinScheduler, accepts, take_first, get}

module _ {ℓ} {A : Type ℓ} where
  abbrev pub served : Result A → List A → List A
  served (ok u) us = u ∷ us
  served (err e) us = us

  -- The units that `n` calls of `Get` return, in order, and the scheduler after them.
  unfoldable pub gets :
      ℕ → Option (A → Bool) → RoundRobinScheduler A → RoundRobinScheduler A × List A
  gets zero filter s = (s, [])
  gets (suc n) filter s =
      let (s', r) = get s filter in let (t, us) = gets n filter s' in (t, served r us)

  -- Over a queue that holds an accepted unit, a search returns it or one before it.
  take_first_before :
      (p : A → Bool) (pre : List A) (u : A) (post : List A)
      → p u ≡ true
      → (take_first p (pre ++ u ∷ post) ≡ some (u, pre ++ post))
        ⊎ ((x : A) × (pre' : List A) × (take_first p (pre ++ u ∷ post) ≡ some (x, pre' ++ u ∷ post))
            × (length pre ≡ suc (length pre')))
  unfolding take_first
  take_first_before p [] u post hit = inl (rw (hit, take_first))
  take_first_before p (y ∷ pre) u post hit = elim (Bool-cases (p y)) [
    | inl h ↦ inr (y, pre, rw (h, take_first), refl)
    | inr h ↦ elim (take_first_before p pre u post hit) [
      | inl e ↦ inl (rw (h, take_first) (rw e))
      | inr (x, pre', e, l) ↦ inr (x, y ∷ pre', rw (h, take_first) (rw e), ap suc l)
    ]
  ]

  -- A unit that the filter accepts is returned within as many calls as it has units before it,
  -- and one more, whatever the filter does with the others.
  pub gets_serve :
      (n : ℕ) (filter : Option (A → Bool)) (s : RoundRobinScheduler A) (pre : List A) (u : A)
      (post : List A)
      → s.unit_queue ≡ pre ++ u ∷ post
      → accepts filter u ≡ true
      → length pre < n
      → Memᴰ u (gets n filter s).1
  unfolding gets get
  gets_serve zero filter s pre u post q hit l = absurd (omega arith)
  gets_serve (suc n) filter s pre u post q hit l =
      elim (take_first_before (accepts filter) pre u post hit) [
        | inl e ↦ rw (q) (rw (e, get) (Memᴰ.head refl))
        | inr (x, pre', e, k) ↦ rw (q) (
            rw (e, get)
              (Memᴰ.tail (
                gets_serve n filter (record { unit_queue = (pre' ++ u ∷ post) ++ x ∷ [] }) pre' u
                  (post ++ x ∷ []) (append_assoc pre' (u ∷ post) (x ∷ [])) hit (omega arith))))
      ]

  rotate_all :
      (xs ys : List A)
      → gets (length xs) none (record { unit_queue = xs ++ ys })
        ≡ (record { unit_queue = ys ++ xs }, xs)
  unfolding gets get
  rotate_all [] ys = simp append-nil
  rotate_all (x ∷ xs) ys = simp (append_assoc, rotate_all xs (ys ++ x ∷ []))

  -- With no filter, as many calls as there are units return every unit once, in queue order,
  -- and leave the queue as it was.
  pub gets_round :
      (s : RoundRobinScheduler A) → gets (length s.unit_queue) none s ≡ (s, s.unit_queue)
  gets_round s =
      ap (λ q. gets (length s.unit_queue) none (record { unit_queue = q }))
        (sym (append-nil s.unit_queue))
      ∙ rotate_all s.unit_queue []

-- ===== src/Examples/Queues.antt =====
-- The schedulers on small queues.
use mathlib.Core.List.{Memᴰ}
use codemigrate.Prelude.{ℕ, [], ◌∷◌, ◌≡◌, refl, Option, some, Bool, arith, ltb, nat_eq}
use codemigrate.Errors.{ok, err, no_valid_unit}
use codemigrate.RoundRobin.{RoundRobinScheduler, get, put, pop}
use codemigrate.RoundRobin.Rotation.{GetCase, get-GetCase}
use codemigrate.RoundRobin.Fairness.{gets, gets_serve}

abbrev three_units : RoundRobinScheduler ℕ
three_units = record { unit_queue = 4 ∷ 7 ∷ 9 ∷ [] }

abbrev above_five : Option (ℕ → Bool)
above_five = some (λ u. ltb 5 u)

get_test : get three_units above_five ≡ (record { unit_queue = 4 ∷ 9 ∷ 7 ∷ [] }, ok 7)
unfolding get
get_test = refl

get_none_test : get three_units (some (λ u. ltb 10 u)) ≡ (three_units, err no_valid_unit)
unfolding get
get_none_test = refl

put-pop_test : pop (put three_units (some 5)) (some 7) ≡ record { unit_queue = 4 ∷ 9 ∷ 5 ∷ [] }
unfolding pop put
put-pop_test = refl

get-GetCase_example : GetCase three_units above_five (get three_units above_five)
get-GetCase_example = get-GetCase three_units above_five

gets_serve_example : Memᴰ 9 (gets 3 above_five three_units).1
unfolding codemigrate.RoundRobin.accepts
gets_serve_example = gets_serve 3 above_five three_units (4 ∷ 7 ∷ []) 9 [] refl refl (omega arith)

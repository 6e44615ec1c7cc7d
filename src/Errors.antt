-- ===== src/Errors.antt =====
-- The errors that the modelled functions return, one constructor for each message, and Go's pair
-- `(value, err)` as a result.
use codemigrate.Prelude.{◌≡◌, refl}

pub data Error : Type 0 where
  no_valid_unit too_many_files invalid_seg_config : Error
  no_such_zone no_storage bad_url unsupported_url not_same_node unknown_mode : Error
  invalid_req no_node not_sent bad_response : Error

pub data Result {ℓ} (A : Type ℓ) : Type ℓ where
  ok : A → Result A
  err : Error → Result A

-- A property of a branching result holds if it holds of every branch.
module _ {A B : Type 0} (P : B → Type 0) where
  pub by_result :
      (r : Result A) {f : Error → B} {g : A → B}
      → ((e : Error) → r ≡ err e → P (f e))
      → ((a : A) → r ≡ ok a → P (g a))
      → P (elim r [ err e ↦ f e | ok a ↦ g a ])
  by_result (err e) pf pg = pf e refl
  by_result (ok a) pf pg = pg a refl

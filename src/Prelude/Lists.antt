-- ===== src/Prelude/Lists.antt =====
-- Lists measured by native numbers, and predicates on lists by recursion.
use Prim.Native.Nat.{ℕ, zero, suc, ◌+◌}
use mathlib.Core.Path.{◌≡◌, refl, ap, ◌∙◌}
use mathlib.Core.Logic.{◌≢◌, ◌⊎◌, inl, inr}
use mathlib.Core.Bool.{Bool, true, false}
use mathlib.Core.List.{List, [], ◌∷◌, ◌++◌, Memᴰ}
use native.Mathlib.Omega.{arith}
use codemigrate.Prelude.Tests.{if◌then◌else◌}

module _ {ℓ} {A : Type ℓ} where
  abbrev pub length : List A → ℕ
  length [] = 0
  length (x ∷ xs) = suc (length xs)

  pub length-append : (xs ys : List A) → length (xs ++ ys) ≡ length xs + length ys
  length-append [] ys = omega arith
  length-append (x ∷ xs) ys = omega (arith, length-append xs ys)

  -- The elements that a test accepts, in order.
  abbrev pub keep_if : (A → Bool) → List A → List A
  keep_if p [] = []
  keep_if p (x ∷ xs) = let rest = keep_if p xs in if p x then x ∷ rest else rest

  abbrev pub All {κ} : (A → Type κ) → List A → Type κ
  All P [] = Unit
  All P (x ∷ xs) = P x × All P xs

  pub All-append {κ} : (P : A → Type κ) (xs ys : List A) → All P xs → All P ys → All P (xs ++ ys)
  All-append P [] ys hx hy = hy
  All-append P (x ∷ xs) ys hx hy = (hx.0, All-append P xs ys hx.1 hy)

  abbrev pub replicate : ℕ → A → List A
  replicate zero a = []
  replicate (suc n) a = a ∷ replicate n a

  pub length-replicate : (n : ℕ) (a : A) → length (replicate n a) ≡ n
  length-replicate zero a = refl
  length-replicate (suc n) a = ap suc (length-replicate n a)

  -- No two elements are equal.
  abbrev pub AllDifferent : List A → Type ℓ
  AllDifferent [] = Unit
  AllDifferent (x ∷ xs) = All (λ y. x ≢ y) xs × AllDifferent xs

-- A member of a list whose first entry is one of two.
pub mem_of_either {ℓ} :
    {A : Type ℓ} (x y z v : A) (l : List A)
    → (z ≡ x) ⊎ (z ≡ y)
    → Memᴰ v (z ∷ l)
    → Memᴰ v (x ∷ y ∷ l)
mem_of_either x y z v l (inl e) (Memᴰ.head q) = Memᴰ.head (q ∙ e)
mem_of_either x y z v l (inr e) (Memᴰ.head q) = Memᴰ.tail (Memᴰ.head (q ∙ e))
mem_of_either x y z v l e (Memᴰ.tail m) = Memᴰ.tail (Memᴰ.tail m)

pub either_of {ℓ} :
    {A : Type ℓ} (b : Bool) (x y : A) → let z = if b then y else x in (z ≡ x) ⊎ (z ≡ y)
either_of true x y = inr refl
either_of false x y = inl refl

-- ===== src/Prelude/Tests.antt =====
-- Boolean tests, the conditional, and Go's `==` on the types that the program compares.
use Prim.Native.Nat.{ℕ, ◌<◌, compare, Ordering}
use Prim.Native.String.{String}
use mathlib.Core.Path.{◌≡◌, refl}
use mathlib.Core.Logic.{◌↔◌, ◌⊎◌, inl, inr}
use mathlib.Core.Bool.{Bool, true, false}
use mathlib.Core.Option.{Option, none, some}
use native.Mathlib.Omega.{arith}
use text.Mathlib.Text.{◌==◌ as str_beq}
use text.Mathlib.TextEquality.{eq_iff}

abbrev pub ltb : ℕ → ℕ → Bool
ltb a b = elim (compare a b) [ Ordering.lt ↦ true | _ ↦ false ]

abbrev pub leb : ℕ → ℕ → Bool
leb a b = elim (compare a b) [ Ordering.gt ↦ false | _ ↦ true ]

abbrev pub nat_beq : ℕ → ℕ → Bool
nat_beq a b = elim (compare a b) [ Ordering.eq ↦ true | _ ↦ false ]

infix 1 if◌then◌else◌
abbrev pub if◌then◌else◌ {ℓ} : {A : Type ℓ} → Bool → A → A → A
if true then x else y = x
if false then x else y = y

pub ltb→lt : (a b : ℕ) → ltb a b ≡ true → a < b
ltb→lt a b h = ground arith

pub nat_beq_iff : (a b : ℕ) → (nat_beq a b ≡ true) ↔ (a ≡ b)
nat_beq_iff a b = ground arith

-- The types whose values Go compares with `==`.
pub record Eq {ℓ} (K : Type ℓ) : Type ℓ where
  pub are_equal : K → K → Bool
  pub decides : (x y : K) → (are_equal x y ≡ true) ↔ (x ≡ y)

instance abbrev pub string_eq : Eq String
string_eq = record { are_equal = str_beq; decides = eq_iff }

infix 50 ◌==◌
abbrev pub ◌==◌ {ℓ} : {K : Type ℓ} ⦃c : Eq K⦄ (x y : K) → Bool
◌==◌ ⦃c⦄ x y = c.are_equal x y

instance abbrev pub nat_eq : Eq ℕ
nat_eq = record { are_equal = nat_beq; decides = nat_beq_iff }

-- The two halves of `decides`, and reflexivity.
pub ==_iff {ℓ} : {A : Type ℓ} ⦃e : Eq A⦄ (a b : A) → ((a == b) ≡ true) ↔ (a ≡ b)
==_iff ⦃e⦄ a b = e.decides a b

pub ==_self {ℓ} : {A : Type ℓ} ⦃e : Eq A⦄ (a : A) → (a == a) ≡ true
==_self ⦃e⦄ a = (e.decides a a).1 refl

-- To split on a computed value and keep the equation.
pub Bool-cases : (b : Bool) → (b ≡ true) ⊎ (b ≡ false)
Bool-cases true = inl refl
Bool-cases false = inr refl

pub Option-cases {ℓ} : {A : Type ℓ} (o : Option A) → (o ≡ none) ⊎ ((a : A) × (o ≡ some a))
Option-cases none = inl refl
Option-cases (some a) = inr (a, refl)

-- A property of a branching result holds if it holds of every branch.
module _ {ℓ κ μ} {A : Type ℓ} {B : Type κ} (P : B → Type μ) where
  pub by_option :
      (o : Option A) {n : B} {f : A → B}
      → P n
      → ((a : A) → o ≡ some a → P (f a))
      → P (elim o [ none ↦ n | some a ↦ f a ])
  by_option none pn pf = pn
  by_option (some a) pn pf = pf a refl

  -- The same, where the first case is told as well which one it is.
  pub by_missing :
      (o : Option A) {n : B} {f : A → B}
      → (o ≡ none → P n)
      → ((a : A) → o ≡ some a → P (f a))
      → P (elim o [ none ↦ n | some a ↦ f a ])
  by_missing none pn pf = pn refl
  by_missing (some a) pn pf = pf a refl

module _ {κ μ} {B : Type κ} (P : B → Type μ) where
  pub by_if : (b : Bool) {m n : B} → (b ≡ true → P m) → (b ≡ false → P n) → P (if b then m else n)
  by_if true pm pn = pm refl
  by_if false pm pn = pn refl

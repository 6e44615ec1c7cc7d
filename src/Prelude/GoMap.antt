-- ===== src/Prelude/GoMap.antt =====
-- Go's `map[K]V` as an association list. Go fixes no order of iteration, and no theorem uses one.
use mathlib.Core.Path.{◌≡◌, refl}
use mathlib.Core.Bool.{Bool}
use mathlib.Core.Option.{Option, none, some}
use mathlib.Core.List.{List, [], ◌∷◌}
use native.Mathlib.Omega.{arith}
use codemigrate.Prelude.Tests.{Eq, ◌==◌, ==_iff, ==_self, if◌then◌else◌}

abbrev pub GoMap {ℓ κ} : Type ℓ → Type κ → Type (ℓ ⊔ κ)
GoMap K V = List (K × V)

abbrev pub accepted {ℓ} : {V : Type ℓ} → (V → Bool) → Option V → Option V
accepted p none = none
accepted p (some v) = if p v then some v else none

module _ {ℓ κ} {K : Type ℓ} {V : Type κ} ⦃e : Eq K⦄ where
  -- v, ok := m[k]
  unfoldable pub get : GoMap K V → K → Option V
  get [] k = none
  get ((j, v) ∷ m) k = if j == k then some v else get m k

  -- m[k] = v
  unfoldable pub put : GoMap K V → K → V → GoMap K V
  put [] k v = (k, v) ∷ []
  put ((j, w) ∷ m) k v = if j == k then (k, v) ∷ m else (j, w) ∷ put m k v

  -- delete(m, k)
  unfoldable pub delete : GoMap K V → K → GoMap K V
  delete [] k = []
  delete ((j, v) ∷ m) k = let rest = delete m k in if j == k then rest else (j, v) ∷ rest

  -- for k, v := range m { if !p(v) { delete(m, k) } }
  unfoldable pub retain : (V → Bool) → GoMap K V → GoMap K V
  retain p [] = []
  retain p ((j, v) ∷ m) = let rest = retain p m in if p v then (j, v) ∷ rest else rest

  pub get-put :
      (m : GoMap K V) (k : K) (v : V) (j : K)
      → get (put m k v) j ≡ (if k == j then some v else get m j)
  unfolding get put
  get-put [] k v j = refl
  get-put ((i, w) ∷ m) k v j = ground (arith, ==_iff k j, ==_iff i k, ==_iff i j, get-put m k v j)

  pub get-delete :
      (m : GoMap K V) (k j : K) → get (delete m k) j ≡ (if k == j then none else get m j)
  unfolding get delete
  get-delete [] k j = ground arith
  get-delete ((i, w) ∷ m) k j = ground (arith, ==_iff k j, ==_iff i k, ==_iff i j, get-delete m k j)

  pub get-put_self : (m : GoMap K V) (k : K) (v : V) → get (put m k v) k ≡ some v
  get-put_self m k v = rw (get-put m k v k, ==_self k)

  pub get-delete_self : (m : GoMap K V) (k : K) → get (delete m k) k ≡ none
  get-delete_self m k = rw (get-delete m k k, ==_self k)

  -- No key stands twice.
  abbrev pub Distinct : GoMap K V → Type κ
  Distinct [] = Unit
  Distinct ((k, v) ∷ m) = (get m k ≡ none) × Distinct m

  pub put-Distinct : (m : GoMap K V) (k : K) (v : V) → Distinct m → Distinct (put m k v)
  unfolding put get
  put-Distinct [] k v d = (refl, tt)
  put-Distinct ((j, w) ∷ m) k v d =
      ground (arith, put-Distinct m k v d.1, get-put m k v j, ==_iff j k, ==_iff k j)

  pub delete-Distinct : (m : GoMap K V) (k : K) → Distinct m → Distinct (delete m k)
  unfolding delete
  delete-Distinct [] k d = tt
  delete-Distinct ((j, w) ∷ m) k d = ground (arith, delete-Distinct m k d.1, get-delete m k j)

  get-retain-none :
      (p : V → Bool) (m : GoMap K V) (k : K) → get m k ≡ none → get (retain p m) k ≡ none
  unfolding get retain
  get-retain-none p [] k h = refl
  get-retain-none p ((j, v) ∷ m) k h = ground (arith, get-retain-none p m k)

  pub retain-Distinct : (p : V → Bool) (m : GoMap K V) → Distinct m → Distinct (retain p m)
  unfolding retain
  retain-Distinct p [] d = tt
  retain-Distinct p ((j, w) ∷ m) d =
      ground (arith, retain-Distinct p m d.1, get-retain-none p m j d.0)

  -- What a sweep leaves: the entries that the test accepts.
  pub get-retain :
      (p : V → Bool) (m : GoMap K V) (k : K)
      → Distinct m
      → get (retain p m) k ≡ accepted p (get m k)
  unfolding get retain
  get-retain p [] k d = refl
  get-retain p ((j, v) ∷ m) k d =
      ground (arith, get-retain p m k d.1, get-retain-none p m j d.0, ==_iff j k)

pub ruleset map_laws = (get-put, get-delete)

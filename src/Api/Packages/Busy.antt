-- ===== src/Api/Packages/Busy.antt =====
-- api/controllers/pkg.go: whether a package is being transferred.
use mathlib.Core.List.{Memᴰ}
use codemigrate.Prelude.{
  String, [], ◌∷◌, ◌≡◌, ◌≢◌, refl, ap, ◌∙◌, Option, none, some, Bool, true, false, ◌==◌, nat_eq,
  string_eq, by_if, ==_iff,
}
use codemigrate.Prelude.GoMap.{GoMap}
use codemigrate.TaskTypes.{Task}
use codemigrate.Api.Packages.Removal.{in_transfer}

-- A task of the cache is of the package.
abbrev pub Busy : String → GoMap String (Option Task) → Type 0
Busy pid tasks = (id : String) × (t : Task) × Memᴰ (id, some t) tasks × (pid ≡ t.pid)

-- The cache holds a nil task.
abbrev pub HasNil : GoMap String (Option Task) → Type 0
HasNil tasks = (id : String) × Memᴰ (id, none) tasks

-- What the scan of the cache tells.
abbrev pub Scan : String → GoMap String (Option Task) → Option Bool → Type 0
Scan pid tasks none = HasNil tasks
Scan pid tasks (some true) = Busy pid tasks
Scan pid tasks (some false) = ¬ Busy pid tasks

idle_empty : (pid : String) → ¬ Busy pid []
idle_empty pid (id, t, m, e) = elim m [ ]

same_entry :
    (id k : String) (t u : Task) → ◌≡◌ {A = String × Option Task} (k, some u) (id, some t) → u ≡ t
same_entry id k t u e = cc

idle_more :
    (pid id : String) (t : Task) (ts : GoMap String (Option Task))
    → pid ≢ t.pid
    → ¬ Busy pid ts
    → ¬ Busy pid ((id, some t) ∷ ts)
idle_more pid id t ts ne h (k, u, Memᴰ.head e, q) =
    ne (q ∙ ap (λ (v : Task). v.pid) (same_entry id k t u e))
idle_more pid id t ts ne h (k, u, Memᴰ.tail m, q) = h (k, u, m, q)

Scan-more :
    (pid id : String) (t : Task) (ts : GoMap String (Option Task)) (o : Option Bool)
    → pid ≢ t.pid
    → Scan pid ts o
    → Scan pid ((id, some t) ∷ ts) o
Scan-more pid id t ts none ne (k, m) = (k, Memᴰ.tail m)
Scan-more pid id t ts (some true) ne (k, u, m, q) = (k, u, Memᴰ.tail m, q)
Scan-more pid id t ts (some false) ne h = idle_more pid id t ts ne h

pub in_transfer-Scan :
    (pid : String) (tasks : GoMap String (Option Task)) → Scan pid tasks (in_transfer pid tasks)
unfolding in_transfer
in_transfer-Scan pid [] = idle_empty pid
in_transfer-Scan pid ((id, none) ∷ ts) = (id, Memᴰ.head refl)
in_transfer-Scan pid ((id, some t) ∷ ts) =
    by_if (Scan pid ((id, some t) ∷ ts)) (pid == t.pid)
      (λ same. (id, t, Memᴰ.head refl, (==_iff pid t.pid).0 same))
      (λ other.
        Scan-more pid id t ts (in_transfer pid ts) (λ e. cc (other, (==_iff pid t.pid).1 e))
          (in_transfer-Scan pid ts))

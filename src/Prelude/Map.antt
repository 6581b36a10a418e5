-- ===== src/Prelude/Map.antt =====
-- Go's `map[K]V` as an association list without repeated keys: `get` is `m[k]` with its `ok`,
-- `put` is `m[k] = v`, `del` is `delete(m, k)`.
use mathlib.Core.Path.{◌≡◌, refl}
use mathlib.Core.Bool.{Bool, true, false}
use mathlib.Core.Option.{Option, none, some}
use mathlib.Core.List.{List, [], ◌∷◌}
use native.Mathlib.Omega.{arith}
use cron_compose.Prelude.Tests.{if◌then◌else◌}
use cron_compose.Prelude.Keys.{Key, ◌==◌, ==_iff}

module _ {ℓ κ} {K : Type ℓ} {V : Type κ} ⦃key : Key K⦄ where
  unfoldable pub get : K → List (K × V) → Option V
  get k [] = none
  get k ((j, v) ∷ m) = if j == k then some v else get k m

  unfoldable pub put : K → V → List (K × V) → List (K × V)
  put k v [] = (k, v) ∷ []
  put k v ((j, w) ∷ m) = if j == k then (k, v) ∷ m else (j, w) ∷ put k v m

  unfoldable pub del : K → List (K × V) → List (K × V)
  del k [] = []
  del k ((j, v) ∷ m) = if j == k then del k m else (j, v) ∷ del k m

  unfoldable pub has : K → List (K × V) → Bool
  has k m = elim (get k m) [ none ↦ false | some _ ↦ true ]

  pub get-put :
      (k j : K) (v : V) (m : List (K × V))
      → get j (put k v m) ≡ (if k == j then some v else get j m)
  unfolding get put
  get-put k j v [] = refl
  get-put k j v ((i, w) ∷ m) = ground (arith, ==_iff k j, ==_iff i k, ==_iff i j, get-put k j v m)

  pub get-del : (k j : K) (m : List (K × V)) → get j (del k m) ≡ (if k == j then none else get j m)
  unfolding get del
  get-del k j [] = ground arith
  get-del k j ((i, w) ∷ m) = ground (arith, ==_iff k j, ==_iff i k, ==_iff i j, get-del k j m)

  pub has-put :
      (k j : K) (v : V) (m : List (K × V)) → has j (put k v m) ≡ (if k == j then true else has j m)
  unfolding has
  has-put k j v m = ground (arith, get-put k j v m)

  pub get-put_self : (k : K) (v : V) (m : List (K × V)) → get k (put k v m) ≡ some v
  get-put_self k v m = ground (arith, get-put k k v m, ==_iff k k)

  pub get-del_self : (k : K) (m : List (K × V)) → get k (del k m) ≡ none
  get-del_self k m = ground (arith, get-del k k m, ==_iff k k)

  -- No key stands twice.
  abbrev pub Distinct : List (K × V) → Type κ
  Distinct [] = Unit
  Distinct ((k, v) ∷ m) = (get k m ≡ none) × Distinct m

  pub put-Distinct : (k : K) (v : V) (m : List (K × V)) → Distinct m → Distinct (put k v m)
  unfolding put get
  put-Distinct k v [] d = (refl, tt)
  put-Distinct k v ((j, w) ∷ m) d =
      ground (arith, ==_iff j k, ==_iff k j, get-put k j v m, put-Distinct k v m d.1)

  pub del-Distinct : (k : K) (m : List (K × V)) → Distinct m → Distinct (del k m)
  unfolding del
  del-Distinct k [] d = tt
  del-Distinct k ((j, w) ∷ m) d =
      ground (arith, ==_iff j k, ==_iff k j, get-del k j m, del-Distinct k m d.1)

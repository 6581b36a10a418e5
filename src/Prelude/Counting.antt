-- ===== src/Prelude/Counting.antt =====
-- How many values of a map pass a test, and how the map operations change that number.
use Prim.Native.Nat.{ℕ, ◌+◌, ◌≤◌}
use mathlib.Core.Path.{◌≡◌, refl}
use mathlib.Core.Logic.{inl, inr}
use mathlib.Core.Bool.{Bool, true, false}
use mathlib.Core.Option.{none, some}
use mathlib.Core.List.{List, [], ◌∷◌}
use native.Mathlib.Omega.{arith}
use cron_compose.Prelude.Tests.{if◌then◌else◌, Bool-cases}
use cron_compose.Prelude.Keys.{Key, ◌==◌, ==_iff}
use cron_compose.Prelude.Map.{get, put, del, Distinct}

-- 1 for a test that holds.
abbrev pub bit : Bool → ℕ
bit b = if b then 1 else 0

module _ {ℓ κ} {K : Type ℓ} {V : Type κ} ⦃key : Key K⦄ where
  module _ (q : V → Bool) where
    unfoldable pub count : List (K × V) → ℕ
    count [] = 0
    count ((k, v) ∷ m) = bit (q v) + count m

    pub count-put_new :
        (k : K) (v : V) (m : List (K × V))
        → get k m ≡ none
        → count (put k v m) ≡ count m + bit (q v)
    unfolding get put count
    count-put_new k v [] h = ground arith
    count-put_new k v ((j, w) ∷ m) h = ground (arith, count-put_new k v m)

    pub count-put_old :
        (k : K) (v w : V) (m : List (K × V))
        → get k m ≡ some w
        → count (put k v m) + bit (q w) ≡ count m + bit (q v)
    unfolding get put count
    count-put_old k v w [] h = ground (arith, h)
    count-put_old k v w ((j, u) ∷ m) h = ground (arith, count-put_old k v w m)

    count-del_absent : (k : K) (m : List (K × V)) → get k m ≡ none → count (del k m) ≡ count m
    unfolding get del count
    count-del_absent k [] h = refl
    count-del_absent k ((j, u) ∷ m) h = ground (arith, count-del_absent k m)

    pub count-del :
        (k : K) (w : V) (m : List (K × V))
        → Distinct m
        → get k m ≡ some w
        → count (del k m) + bit (q w) ≡ count m
    unfolding get del count
    count-del k w [] d h = ground (arith, h)
    count-del k w ((j, u) ∷ m) d h =
        ground (arith, ==_iff j k, count-del_absent k m, count-del k w m d.1)

    pub count-one : (k : K) (w : V) (m : List (K × V)) → get k m ≡ some w → q w ≡ true → 1 ≤ count m
    unfolding get count
    count-one k w [] h p = ground (arith, h)
    count-one k w ((i, u) ∷ m) h p = ground (arith, count-one k w m)

    -- Two different keys that pass make the number at least two.
    pub count-two :
        (j k : K) (v w : V) (m : List (K × V))
        → (j == k) ≡ false
        → get j m ≡ some v
        → get k m ≡ some w
        → q v ≡ true
        → q w ≡ true
        → 2 ≤ count m
    unfolding get count
    count-two j k v w [] ne hj hk pj pk = ground (arith, hj)
    count-two j k v w ((i, u) ∷ m) ne hj hk pj pk = ground (
      arith,
      ==_iff j k,
      ==_iff i j,
      ==_iff i k,
      count-one j v m,
      count-one k w m,
      count-two j k v w m ne,
    )

    -- Where the number is not 0, some key has a value that passes.
    pub count-found :
        (m : List (K × V))
        → Distinct m
        → 1 ≤ count m
        → (k : K) × (v : V) × (get k m ≡ some v) × (q v ≡ true)
    unfolding get count
    count-found [] d h = absurd (ground (arith, h))
    count-found ((k, v) ∷ m) d h = elim (Bool-cases (q v)) [
      | inl passes ↦ (k, v, ground (arith, ==_iff k k), passes)
      | inr fails ↦
          let (k', v', e, p) = count-found m d.1 (ground (arith, h, fails)) in
          (k', v', ground (arith, e, d.0, ==_iff k k'), p)
    ]

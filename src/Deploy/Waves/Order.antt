-- ===== src/Deploy/Waves/Order.antt =====
-- The order of the start groups: sorted numbers without repetition.
use cron_compose.Prelude.{
  ℕ, ◌<◌, ◌≡◌, refl, ◌∙◌, Bool, false, ◌||◌, List, [], ◌∷◌, ◌++◌, nat_eq, ◌==◌, ==_iff, leb, arith,
  All, Bool-cases, inl, inr,
}
use cron_compose.Deploy.Waves.{insert_number, sort_numbers}

unfoldable pub is_member : ℕ → List ℕ → Bool
is_member g [] = false
is_member g (x ∷ xs) = x == g || is_member g xs

abbrev pub Ascending : List ℕ → Type 0
Ascending [] = Unit
Ascending (x ∷ xs) = All (λ y. x < y) xs × Ascending xs

abbrev pub NoRepeats : List ℕ → Type 0
NoRepeats [] = Unit
NoRepeats (x ∷ xs) = (is_member x xs ≡ false) × NoRepeats xs

pub is_member-append :
    (g : ℕ) (xs ys : List ℕ) → is_member g (xs ++ ys) ≡ (is_member g xs || is_member g ys)
unfolding is_member
is_member-append g [] ys = refl
is_member-append g (x ∷ xs) ys = ground (arith, is_member-append g xs ys)

pub NoRepeats-append :
    (xs : List ℕ) (g : ℕ) → NoRepeats xs → is_member g xs ≡ false → NoRepeats (xs ++ g ∷ [])
unfolding is_member
NoRepeats-append [] g n h = (refl, tt)
NoRepeats-append (x ∷ xs) g (f, n) h = (
  ground (arith, f, h, is_member-append x xs (g ∷ []), ==_iff g x, ==_iff x g),
  NoRepeats-append xs g n (ground (arith, h)),
)

pub is_member-insert :
    (g x : ℕ) (xs : List ℕ) → is_member g (insert_number x xs) ≡ is_member g (x ∷ xs)
unfolding is_member insert_number
is_member-insert g x [] = refl
is_member-insert g x (y ∷ ys) = ground (arith, is_member-insert g x ys)

pub is_member-sort : (g : ℕ) (xs : List ℕ) → is_member g (sort_numbers xs) ≡ is_member g xs
unfolding is_member sort_numbers
is_member-sort g [] = refl
is_member-sort g (x ∷ xs) =
    ground (arith, is_member-insert g x (sort_numbers xs), is_member-sort g xs)

pub All-insert :
    (z x : ℕ) (xs : List ℕ) → z < x → All (λ y. z < y) xs → All (λ y. z < y) (insert_number x xs)
unfolding insert_number
All-insert z x [] h a = (h, tt)
All-insert z x (y ∷ ys) h (l, a) = elim (Bool-cases (leb x y)) [
  | inl e ↦ rw e (h, (l, a))
  | inr e ↦ rw e (l, All-insert z x ys h a)
]

pub All-below : (x y : ℕ) (ys : List ℕ) → x < y → All (λ z. y < z) ys → All (λ z. x < z) ys
All-below x y [] h a = tt
All-below x y (z ∷ zs) h (l, a) = (omega arith, All-below x y zs h a)

pub Ascending-insert :
    (x : ℕ) (xs : List ℕ) → is_member x xs ≡ false → Ascending xs → Ascending (insert_number x xs)
unfolding insert_number is_member
Ascending-insert x [] h a = (tt, tt)
Ascending-insert x (y ∷ ys) h (l, a) = elim (Bool-cases (leb x y)) [
  | inl e ↦
      let less : x < y = ground (arith, e, h) in rw e ((less, All-below x y ys less l), (l, a))
  | inr e ↦
      rw e (All-insert y x ys (ground (arith, e)) l, Ascending-insert x ys (ground (arith, h)) a)
]

pub sort_numbers-Ascending : (xs : List ℕ) → NoRepeats xs → Ascending (sort_numbers xs)
unfolding sort_numbers
sort_numbers-Ascending [] n = tt
sort_numbers-Ascending (x ∷ xs) (h, n) =
    Ascending-insert x (sort_numbers xs) (is_member-sort x xs ∙ h) (sort_numbers-Ascending xs n)

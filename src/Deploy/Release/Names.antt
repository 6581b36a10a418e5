-- ===== src/Deploy/Release/Names.antt =====
-- How often a name stands in the lists of agent/internal/deploy/release.go that are sorted and cut.
use cron_compose.Prelude.{
  ℕ, zero, suc, ◌+◌, ◌≤◌, ◌<◌, ◌≡◌, refl, ap, ◌∙◌, List, [], ◌∷◌, length, Bytes, nat_eq, bytes_eq,
  ◌==◌, arith,
}
use cron_compose.Prelude.Counting.{bit}
use cron_compose.Prelude.Strings.{insert_text, sort_texts}
use cron_compose.Deploy.Release.{reversed, newest_first, drop_first, take_first}

-- How often a name stands in a list.
unfoldable pub times : Bytes → List Bytes → ℕ
times n [] = 0
times n (x ∷ xs) = bit (x == n) + times n xs

pub none_noted : (n : Bytes) → ¬ (0 < times n [])
unfolding times
none_noted n m = omega (arith, m)

times-insert_text : (n s : Bytes) (ts : List Bytes) → times n (insert_text s ts) ≡ times n (s ∷ ts)
unfolding times insert_text
times-insert_text n s [] = refl
times-insert_text n s (t ∷ ts) = ground (arith, times-insert_text n s ts)

times-sort_texts : (n : Bytes) (ts : List Bytes) → times n (sort_texts ts) ≡ times n ts
unfolding times sort_texts
times-sort_texts n [] = refl
times-sort_texts n (t ∷ ts) =
    omega (arith, times-insert_text n t (sort_texts ts), times-sort_texts n ts)

times-reversed :
    (n : Bytes) (xs acc : List Bytes) → times n (reversed xs acc) ≡ times n xs + times n acc
unfolding times reversed
times-reversed n [] acc = omega arith
times-reversed n (x ∷ xs) acc = omega (arith, times-reversed n xs (x ∷ acc))

pub times-newest_first :
    (n : Bytes) (names : List Bytes) → times n (newest_first names) ≡ times n names
unfolding newest_first times
times-newest_first n names =
    omega (arith, times-reversed n (sort_texts names) [], times-sort_texts n names)

pub times-take_drop :
    (n : Bytes) (k : ℕ) (xs : List Bytes)
    → times n (take_first k xs) + times n (drop_first k xs) ≡ times n xs
unfolding times take_first drop_first
times-take_drop n zero xs = omega arith
times-take_drop n (suc k) [] = omega arith
times-take_drop n (suc k) (x ∷ xs) = omega (arith, times-take_drop n k xs)

length-insert_text : (s : Bytes) (ts : List Bytes) → length (insert_text s ts) ≡ suc (length ts)
unfolding insert_text
length-insert_text s [] = refl
length-insert_text s (t ∷ ts) = ground (arith, length-insert_text s ts)

length-sort_texts : (ts : List Bytes) → length (sort_texts ts) ≡ length ts
unfolding sort_texts
length-sort_texts [] = refl
length-sort_texts (t ∷ ts) =
    length-insert_text t (sort_texts ts) ∙ ap (λ n. suc n) (length-sort_texts ts)

length-reversed : (xs acc : List Bytes) → length (reversed xs acc) ≡ length xs + length acc
unfolding reversed
length-reversed [] acc = omega arith
length-reversed (x ∷ xs) acc = omega (arith, length-reversed xs (x ∷ acc))

pub length-newest_first : (names : List Bytes) → length (newest_first names) ≡ length names
unfolding newest_first
length-newest_first names =
    omega (arith, length-reversed (sort_texts names) [], length-sort_texts names)

pub drop_first-all : (k : ℕ) (xs : List Bytes) → length xs ≤ k → drop_first k xs ≡ []
unfolding drop_first
drop_first-all zero [] h = refl
drop_first-all zero (x ∷ xs) h = absurd (omega (arith, h))
drop_first-all (suc k) [] h = refl
drop_first-all (suc k) (x ∷ xs) h = drop_first-all k xs (omega (arith, h))

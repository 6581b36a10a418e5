-- ===== src/Scheduler/Memory.antt =====
-- An implementation of the cron library in memory, for runs of the model.
use Prim.Native.String.{String}
use cron_compose.Prelude.{
  ℕ, zero, suc, nat_eq, string_eq, ◌==◌, ◌≡◌, refl, Bool, true, false, not, List, [], ◌∷◌, ◌++◌,
  Option, none, some, length, if◌then◌else◌, arith,
}
use cron_compose.Scheduler.Cron.{CronLib}

-- An instance: its entries by id, a hole where one was removed, and whether it was started.
pub record Table : Type 0 where
  pub slots : List (Option (String × String))
  pub started : Bool

abbrev pub slot : List (Option (String × String)) → ℕ → Option (String × String)
slot [] i = none
slot (x ∷ xs) zero = x
slot (x ∷ xs) (suc i) = slot xs i

unfoldable pub clear : List (Option (String × String)) → ℕ → List (Option (String × String))
clear [] i = []
clear (x ∷ xs) zero = none ∷ xs
clear (x ∷ xs) (suc i) = x ∷ clear xs i

slot-append :
    (xs : List (Option (String × String))) (x : String × String) (i : ℕ)
    → slot (xs ++ some x ∷ []) i ≡ (if length xs == i then some x else slot xs i)
slot-append [] x zero = refl
slot-append [] x (suc i) = ground arith
slot-append (y ∷ xs) x zero = ground arith
slot-append (y ∷ xs) x (suc i) = ground (arith, slot-append xs x i)

slot-length : (xs : List (Option (String × String))) → slot xs (length xs) ≡ none
slot-length [] = refl
slot-length (x ∷ xs) = slot-length xs

pub slot-clear :
    (xs : List (Option (String × String))) (i j : ℕ)
    → slot (clear xs i) j ≡ (if i == j then none else slot xs j)
unfolding clear
slot-clear [] i j = ground arith
slot-clear (x ∷ xs) zero zero = refl
slot-clear (x ∷ xs) zero (suc j) = ground arith
slot-clear (x ∷ xs) (suc i) zero = ground arith
slot-clear (x ∷ xs) (suc i) (suc j) = ground (arith, slot-clear xs i j)

unfoldable pub parses : String → Bool
parses spec = not (spec == "bad")

unfoldable pub add_func : String → String → Table → Option (Table × ℕ)
unfolding parses
add_func spec job c =
    if parses spec
    then some (record c { slots = c.slots ++ some (spec, job) ∷ [] }, length c.slots)
    else none

pub add_func_refused :
    (spec job : String) (c : Table) → add_func spec job c ≡ none → parses spec ≡ false
unfolding add_func
add_func_refused spec job c h = ground arith

module _ (spec job : String) (c c' : Table) (id : ℕ)
    (added : add_func spec job c ≡ some (c', id)) where
  pub add_func_parses : parses spec ≡ true
  unfolding add_func
  add_func_parses = ground arith

  pub add_func_fresh : slot c.slots id ≡ none
  unfolding add_func
  add_func_fresh = ground (arith, slot-length c.slots)

  pub lookup-add_func :
      (i : ℕ) → slot c'.slots i ≡ (if id == i then some (spec, job) else slot c.slots i)
  unfolding add_func
  lookup-add_func i = ground (arith, slot-append c.slots (spec, job) i)

  pub running-add_func : c'.started ≡ c.started
  unfolding add_func
  running-add_func = ground arith

abbrev pub memory : CronLib
memory = record {
  Cron = Table;
  new = λ tz. record { slots = []; started = false };
  lookup = λ c. slot c.slots;
  add_func = λ spec job c. add_func spec job c;
  remove = λ id c. record c { slots = clear c.slots id };
  parses = λ spec. parses spec;
  start = λ c. record c { started = true };
  stop = λ c. record c { started = false };
  running = λ c. c.started;
  lookup-new = λ tz id. refl;
  add_func_refused = add_func_refused;
  add_func_parses = λ spec job c c' id e. add_func_parses spec job c c' id e;
  add_func_fresh = λ spec job c c' id e. add_func_fresh spec job c c' id e;
  lookup-add_func = λ spec job c c' id i e. lookup-add_func spec job c c' id e i;
  lookup-remove = λ id i c. slot-clear c.slots id i;
  lookup-start = λ i c. refl;
  lookup-stop = λ i c. refl;
  running-new = λ tz. refl;
  running-add_func = λ spec job c c' id e. running-add_func spec job c c' id e;
  running-remove = λ id c. refl;
  running-start = λ c. refl;
  running-stop = λ c. refl;
}

-- ===== src/Deploy/Release/Pruned.antt =====
-- What `Prune` of agent/internal/deploy/release.go removes.
use cron_compose.Prelude.{
  ◌+◌, ◌≤◌, ◌<◌, ◌≡◌, ◌⊎◌, refl, sym, ap, subst, ◌∙◌, Bool, true, false, List, [], ◌∷◌, length,
  Option, none, some, Bytes, nat_eq, bytes_eq, ◌==◌, ==_iff, if◌then◌else◌, leb, arith, Bool-cases,
  inl, inr,
}
use cron_compose.Prelude.Counting.{bit}
use cron_compose.Deploy.Release.{
  Entry, release_names, newest_first, keep_releases, drop_first, take_first, Tree, is_live,
  noted_removal, remove_old, prune,
}
use cron_compose.Deploy.Release.Names.{
  times, none_noted, times-newest_first, times-take_drop, length-newest_first, drop_first-all,
}

unfoldable pub without_live : Option Bytes → List Bytes → List Bytes
without_live live [] = []
without_live live (x ∷ xs) =
    let rest = without_live live xs in if is_live live x then rest else x ∷ rest

module _ (T : Tree) where
  open T use {State, entries, current, remove_all, present}

  -- `os.RemoveAll` of one release leaves the others.
  abbrev pub KeepsOthers : Type 0
  KeepsOthers =
      (m n : Bytes) (s : State) → (m == n) ≡ false → present n (remove_all m s).1 ≡ present n s

  -- `os.RemoveAll` that returns nil leaves no such release.
  abbrev pub Removes : Type 0
  Removes =
      (m : Bytes) (s : State) → (remove_all m s).0 ≡ true → present m (remove_all m s).1 ≡ false

  other_name :
      (live : Option Bytes) (n x : Bytes) (xs : List Bytes)
      → (times n (x ∷ xs) ≡ 0) ⊎ (live ≡ some n)
      → is_live live x ≡ false
      → (x == n) ≡ false
  unfolding times
  other_name live n x xs (inl e) h = ground (arith, e)
  other_name none n x xs (inr e) h = cc
  other_name (some l) n x xs (inr e) h = ground (arith, e, h, ==_iff x l, ==_iff x n)

  fewer :
      (live : Option Bytes) (n x : Bytes) (xs : List Bytes)
      → (times n (x ∷ xs) ≡ 0) ⊎ (live ≡ some n)
      → (times n xs ≡ 0) ⊎ (live ≡ some n)
  unfolding times
  fewer live n x xs (inl e) = inl (omega (arith, e))
  fewer live n x xs (inr e) = inr e

  noted_removal-state :
      (x : Bytes) (b : Bool) (r : List Bytes × State) → (noted_removal T x b r).1 ≡ r.1
  noted_removal-state x true r = refl
  noted_removal-state x false r = refl

  remove_old-spares :
      (keeps : KeepsOthers) (live : Option Bytes) (n : Bytes) (names : List Bytes) (s : State)
      → (times n names ≡ 0) ⊎ (live ≡ some n)
      → present n (remove_old T live names s).1 ≡ present n s
  unfolding remove_old
  remove_old-spares keeps live n [] s h = refl
  remove_old-spares keeps live n (x ∷ xs) s h =
      let s' : State = (remove_all x s).1 in
      let left = fewer live n x xs h in
      elim (Bool-cases (is_live live x)) [
        | inl e ↦ rw e (remove_old-spares keeps live n xs s left)
        | inr e ↦ rw e (
            rw (noted_removal-state x (remove_all x s).0 (remove_old T live xs s')) (
              remove_old-spares keeps live n xs s' left ∙ keeps x n s (other_name live n x xs h e)))
      ]

  -- If each removal works, what is removed is all but the live release.
  remove_old-removes :
      (works : (m : Bytes) (s : State) → (remove_all m s).0 ≡ true) (live : Option Bytes)
      (names : List Bytes) (s : State)
      → (remove_old T live names s).0 ≡ without_live live names
  unfolding remove_old without_live
  remove_old-removes works live [] s = refl
  remove_old-removes works live (x ∷ xs) s =
      let s' : State = (remove_all x s).1 in
      ground
        (arith, works x s, remove_old-removes works live xs s, remove_old-removes works live xs s')

  -- The names that are reported: those of the rest, and this one if its removal worked.
  times-noted_removal :
      (n x : Bytes) (b : Bool) (r : List Bytes × State)
      → times n (noted_removal T x b r).0 ≡ (if b then bit (x == n) else 0) + times n r.0
  unfolding times
  times-noted_removal n x true r = refl
  times-noted_removal n x false r = omega arith

  times-remove_old :
      (live : Option Bytes) (n : Bytes) (names : List Bytes) (s : State)
      → times n (remove_old T live names s).0 ≤ times n names
  unfolding remove_old times
  times-remove_old live n [] s = omega arith
  times-remove_old live n (x ∷ xs) s =
      let s' : State = (remove_all x s).1 in
      ground (
        arith,
        times-remove_old live n xs s,
        times-remove_old live n xs s',
        times-noted_removal n x (remove_all x s).0 (remove_old T live xs s'),
      )

  -- What is reported is gone, whatever becomes of the other removals.
  remove_old-gone :
      (keeps : KeepsOthers) (removes : Removes) (live : Option Bytes) (n : Bytes)
      (names : List Bytes) (s : State)
      → times n names ≤ 1
      → 0 < times n (remove_old T live names s).0
      → present n (remove_old T live names s).1 ≡ false
  unfolding remove_old times
  remove_old-gone keeps removes live n [] s once h = absurd (omega (arith, h))
  remove_old-gone keeps removes live n (x ∷ xs) s once h =
      by_live (is_live live x) refl
        (λ t. remove_old-gone keeps removes live n xs t (omega (arith, once)))
    where
      s' : State
      s' = (remove_all x s).1

      rest : List Bytes × State
      rest = remove_old T live xs s'

      by_removal :
          (b c : Bool)
          → (remove_all x s).0 ≡ b
          → (x == n) ≡ c
          → 0 < (if b then bit c else 0) + times n rest.0
          → (0 < times n rest.0 → present n rest.1 ≡ false)
          → present n rest.1 ≡ false
      by_removal true true worked same some_n again =
          let x_is_n : x ≡ n = (==_iff x n).0 same in
          let alone : times n xs ≡ 0 = ground (arith, once, same) in
          remove_old-spares keeps live n xs s' (inl alone)
          ∙ subst (λ m. present m s' ≡ false) x_is_n (removes x s worked)
      by_removal true false worked other some_n again = again (omega (arith, some_n))
      by_removal false c failed same some_n again = again (omega (arith, some_n))

      by_live :
          (b : Bool)
          → is_live live x ≡ b
          → ((t : State)
              → 0 < times n (remove_old T live xs t).0
              → present n (remove_old T live xs t).1 ≡ false)
          → present n (remove_old T live (x ∷ xs) s).1 ≡ false
      by_live true e again = rw e (again s (rw e at h))
      by_live false e again =
          let noted = times-noted_removal n x (remove_all x s).0 rest in
          rw (e, noted_removal-state x (remove_all x s).0 rest)
            (by_removal (remove_all x s).0 (x == n) refl refl (rw (e, noted) at h) (again s'))

  -- The pruning of a directory without repeated names.
  pub record Prunes (es : List Entry) (s : State) (r : List Bytes × State) : Type 0 where
    pub newest :
        (n : Bytes)
        → 0 < times n (take_first keep_releases (newest_first (release_names es)))
        → present n r.1 ≡ present n s
    pub live : (n : Bytes) → current s ≡ some n → present n r.1 ≡ present n s
    pub others :
        ((m : Bytes) (s' : State) → (remove_all m s').0 ≡ true)
        → r.0
          ≡ without_live (current s) (drop_first keep_releases (newest_first (release_names es)))
    pub gone : (n : Bytes) → 0 < times n r.0 → present n r.1 ≡ false

  -- Prune leaves each of the five newest releases and the live one in place. Every release that it
  -- reports as removed is gone afterwards, and if each removal works these are all the others. The
  -- removal of one release leaves the others, one that works leaves no such release, and no name
  -- stands twice.
  pub prune-Prunes :
      (es : List Entry) (s : State)
      → KeepsOthers
      → Removes
      → entries s ≡ some es
      → ((n : Bytes) → times n (release_names es) ≤ 1)
      → Prunes es s (prune T s)
  unfolding prune without_live
  prune-Prunes es s keeps removes listed once =
      rw (listed, prune) (by_test (leb (length names) keep_releases) refl)
    where
      names : List Bytes
      names = release_names es

      sorted : List Bytes
      sorted = newest_first names

      by_test :
          (b : Bool)
          → leb (length names) keep_releases ≡ b
          → Prunes es s
              (if b then ([], s) else remove_old T (current s) (drop_first keep_releases sorted) s)
      by_test true h = record {
        newest = λ n _. refl;
        live = λ n _. refl;
        others = λ _.
            let few : length sorted ≤ keep_releases =
              ground (arith, h, length-newest_first names) in
            sym (ap (without_live (current s)) (drop_first-all keep_releases sorted few));
        gone = λ n m. absurd (none_noted n m);
      }
      by_test false h = record {
        newest = λ n m. remove_old-spares keeps (current s) n (drop_first keep_releases sorted) s (
            inl (
              omega (
                arith,
                m,
                once n,
                times-take_drop n keep_releases sorted,
                times-newest_first n names,
              )));
        live = λ n e.
            remove_old-spares keeps (current s) n (drop_first keep_releases sorted) s (inr e);
        others = λ works. remove_old-removes works (current s) (drop_first keep_releases sorted) s;
        gone = λ n m.
            remove_old-gone keeps removes (current s) n (drop_first keep_releases sorted) s
              (omega
                (arith, once n, times-take_drop n keep_releases sorted, times-newest_first n names))
              m;
      }

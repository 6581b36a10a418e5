-- ===== src/Deploy/Waves/Grouped.antt =====
-- The waves of `groupAppsByStart` of agent/internal/deploy/runner.go.
use cron_compose.Prelude.{
  ℕ, ◌≡◌, refl, sym, ap, subst, ◌∙◌, Bool, true, false, ◌||◌, List, [], ◌∷◌, ◌++◌, map,
  append_assoc, append-nil, nat_eq, ◌==◌, ==_iff, if◌then◌else◌, arith, Bool-cases, inl, inr,
}
use cron_compose.Prelude.Map.{get, put, has, get-put, has-put}
use cron_compose.Deploy.Plan.{App}
use cron_compose.Deploy.Waves.{
  group_of, bucket, bucket_all, sort_numbers, buckets_of, group_apps_by_start,
}
use cron_compose.Deploy.Waves.Order.{
  is_member, Ascending, NoRepeats, is_member-append, NoRepeats-append, is_member-sort,
  sort_numbers-Ascending,
}

-- The apps of one group, in their order.
unfoldable pub of_group : ℕ → List App → List App
of_group g [] = []
of_group g (a ∷ apps) = let rest = of_group g apps in if group_of a == g then a ∷ rest else rest

unfoldable pub occurs : ℕ → List App → Bool
occurs g [] = false
occurs g (a ∷ apps) = group_of a == g || occurs g apps

of_group-append :
    (g : ℕ) (done : List App) (a : App)
    → of_group g (done ++ a ∷ []) ≡ of_group g done ++ (if group_of a == g then a ∷ [] else [])
unfolding of_group
of_group-append g [] a = refl
of_group-append g (b ∷ done) a = elim (Bool-cases (group_of b == g)) [
  | inl e ↦ rw e (ap (λ xs. b ∷ xs) (of_group-append g done a))
  | inr e ↦ rw e (of_group-append g done a)
]

occurs-append :
    (g : ℕ) (done : List App) (a : App)
    → occurs g (done ++ a ∷ []) ≡ (occurs g done || group_of a == g)
unfolding occurs
occurs-append g [] a = ground arith
occurs-append g (b ∷ done) a = ground (arith, occurs-append g done a)

-- The order and the buckets after the apps that are done.
record Buckets (done : List App) (r : List ℕ × List (ℕ × List App)) : Type 0 where
  filled : (g : ℕ) → bucket g r.1 ≡ of_group g done
  seen : (g : ℕ) → has g r.1 ≡ occurs g done
  listed : (g : ℕ) → is_member g r.0 ≡ occurs g done
  once : NoRepeats r.0

bucket-put :
    (g h : ℕ) (apps : List App) (m : List (ℕ × List App))
    → bucket g (put h apps m) ≡ (if h == g then apps else bucket g m)
bucket-put g h apps m = ground (arith, get-put h g apps m)

bucket_filled :
    (done : List App) (a : App) (g : ℕ) (buckets : List (ℕ × List App))
    → ((h : ℕ) → bucket h buckets ≡ of_group h done)
    → bucket g (put (group_of a) (bucket (group_of a) buckets ++ a ∷ []) buckets)
      ≡ of_group g (done ++ a ∷ [])
bucket_filled done a g buckets filled =
    bucket-put g (group_of a) (bucket (group_of a) buckets ++ a ∷ []) buckets
    ∙ (by_test (group_of a == g) refl ∙ sym (of_group-append g done a))
  where
    by_test :
        (b : Bool)
        → (group_of a == g) ≡ b
        → (if b then bucket (group_of a) buckets ++ a ∷ [] else bucket g buckets)
          ≡ of_group g done ++ (if b then a ∷ [] else [])
    by_test true e =
        let same : group_of a ≡ g = (==_iff (group_of a) g).0 e in
        ap (λ xs. xs ++ a ∷ []) (filled (group_of a) ∙ ap (λ h. of_group h done) same)
    by_test false e = filled g ∙ sym (append-nil (of_group g done))

bucket_listed :
    (done : List App) (a : App) (g : ℕ) (order : List ℕ) (b : Bool)
    → b ≡ occurs (group_of a) done
    → is_member g order ≡ occurs g done
    → is_member g (if b then order else order ++ group_of a ∷ []) ≡ occurs g (done ++ a ∷ [])
unfolding is_member
bucket_listed done a g order true h l = elim (Bool-cases (group_of a == g)) [
  | inl e ↦
      let same : group_of a ≡ g = (==_iff (group_of a) g).0 e in
      let found : occurs g done ≡ true = ap (λ k. occurs k done) (sym same) ∙ sym h in
      ground (arith, l, e, found, occurs-append g done a)
  | inr e ↦ ground (arith, l, e, occurs-append g done a)
]
bucket_listed done a g order false h l =
    ground (arith, l, is_member-append g order (group_of a ∷ []), occurs-append g done a)

bucket_once :
    (done : List App) (a : App) (order : List ℕ) (b : Bool)
    → b ≡ occurs (group_of a) done
    → is_member (group_of a) order ≡ occurs (group_of a) done
    → NoRepeats order
    → NoRepeats (if b then order else order ++ group_of a ∷ [])
bucket_once done a order true h l n = n
bucket_once done a order false h l n = NoRepeats-append order (group_of a) n (l ∙ sym h)

bucket_step :
    (done : List App) (a : App) (order : List ℕ) (buckets : List (ℕ × List App))
    → Buckets done (order, buckets)
    → Buckets (done ++ a ∷ []) (
      if has (group_of a) buckets then order else order ++ group_of a ∷ [],
      put (group_of a) (bucket (group_of a) buckets ++ a ∷ []) buckets,
    )
bucket_step done a order buckets b = record {
  filled = λ g. bucket_filled done a g buckets b.filled;
  seen = λ g. ground (
    arith,
    has-put (group_of a) g (bucket (group_of a) buckets ++ a ∷ []) buckets,
    b.seen g,
    occurs-append g done a,
  );
  listed = λ g.
      bucket_listed done a g order (has (group_of a) buckets) (b.seen (group_of a)) (b.listed g);
  once =
      bucket_once done a order (has (group_of a) buckets) (b.seen (group_of a))
        (b.listed (group_of a)) b.once;
}

bucket_all-Buckets :
    (apps done : List App) (order : List ℕ) (buckets : List (ℕ × List App))
    → Buckets done (order, buckets)
    → Buckets (done ++ apps) (bucket_all apps order buckets)
unfolding bucket_all
bucket_all-Buckets [] done order buckets b =
    subst (λ d. Buckets d (order, buckets)) (sym (append-nil done)) b
bucket_all-Buckets (a ∷ apps) done order buckets b =
    subst (λ d. Buckets d (bucket_all (a ∷ apps) order buckets)) (append_assoc done (a ∷ []) apps)
      (bucket_all-Buckets apps (done ++ a ∷ []) _ _ (bucket_step done a order buckets b))

-- The waves: one for each group that occurs, in ascending order, with the apps of the group as they
-- stand in the project.
pub record IsGrouped (apps : List App) (waves : List (List App)) : Type 0 where
  pub groups : List ℕ
  pub ascending : Ascending groups
  pub occurring : (g : ℕ) → is_member g groups ≡ occurs g apps
  pub contents : waves ≡ map (λ g. of_group g apps) groups

buckets_of_lem :
    (apps : List App) (gs : List ℕ) (buckets : List (ℕ × List App))
    → ((g : ℕ) → bucket g buckets ≡ of_group g apps)
    → buckets_of gs buckets ≡ map (λ g. of_group g apps) gs
unfolding buckets_of
buckets_of_lem apps [] buckets h = refl
buckets_of_lem apps (g ∷ gs) buckets h =
    ap (λ w. w ∷ buckets_of gs buckets) (h g)
    ∙ ap (λ ws. of_group g apps ∷ ws) (buckets_of_lem apps gs buckets h)

-- The waves are one for each start group that an app has, in ascending order, and each has the apps
-- of its group in the order in which they stand in the project. No apps give no wave.
pub group_apps_by_start-IsGrouped : (apps : List App) → IsGrouped apps (group_apps_by_start apps)
unfolding group_apps_by_start has get is_member of_group occurs
group_apps_by_start-IsGrouped apps =
    let b =
      bucket_all-Buckets apps [] [] []
        (record { filled = λ g. refl; seen = λ g. refl; listed = λ g. refl; once = tt }) in
    let r = bucket_all apps [] [] in
    record {
      groups = sort_numbers r.0;
      ascending = sort_numbers-Ascending r.0 b.once;
      occurring = λ g. is_member-sort g r.0 ∙ b.listed g;
      contents = buckets_of_lem apps (sort_numbers r.0) r.1 b.filled;
    }

-- ===== src/Deploy/Flow/Swap.antt =====
-- The swap that makes a release live, and what follows it.
use cron_compose.Prelude.{◌≡◌, refl, true, List, ◌∷◌, ◌++◌, Option, none, some, Bytes, arith}
use cron_compose.Prelude.Text.{codes}
use cron_compose.Deploy.Plan.{Project}
use cron_compose.Deploy.Acts.{
  swap, Did, Run, Host, perform, fail_with, settle, settled, and_then, Failure, in_phase,
}
use cron_compose.Deploy.Acts.Histories.{is_spotless, is_live, is_guarded, is_careful}
use cron_compose.Deploy.Acts.Sound.{Sound, Fails, and_then-Fails}
use cron_compose.Deploy.Acts.Lawful.{Lawful, Careful}
use cron_compose.Deploy.Flow.{swap_to}

module _ (host : Host) (cmd : Project) where
  module _ (dir : Bytes) (next : Run Failure) where
    abbrev after_swap : Option Bytes → Run Failure
    after_swap o h =
        settled
          (λ e. fail_with (some (in_phase (codes "release") (codes "activate release: " ++ e))))
          next (o, record { act = swap dir; outcome = o } ∷ h)

    after_swap-tells :
        (o : Option Bytes) (h : List Did)
        → Sound next
        → is_spotless h ≡ true
        → (after_swap o h).0 ≡ none
        → is_spotless (after_swap o h).1 ≡ true
    unfolding is_spotless
    after_swap-tells none h s u e = s.tells (record { act = swap dir; outcome = none } ∷ h) u e
    after_swap-tells (some x) h s u e = cc

    after_swap-guards :
        (o : Option Bytes) (h : List Did)
        → Sound next
        → is_guarded h ≡ true
        → is_guarded (after_swap o h).1 ≡ true
    unfolding is_guarded is_live
    after_swap-guards none h s g = s.guards (record { act = swap dir; outcome = none } ∷ h) refl g
    after_swap-guards (some x) h s g = g

    after_swap-lives :
        (o : Option Bytes) (h : List Did)
        → Sound next
        → (after_swap o h).0 ≡ none
        → is_live (after_swap o h).1 ≡ true
    unfolding is_live
    after_swap-lives none h s e = s.stays (record { act = swap dir; outcome = none } ∷ h) refl
    after_swap-lives (some x) h s e = cc

    after_swap-keeps :
        (o : Option Bytes) (h : List Did)
        → Sound next
        → is_spotless h ≡ true
        → is_careful h ≡ true
        → is_careful (after_swap o h).1 ≡ true
    unfolding is_careful
    after_swap-keeps none h s u c =
        s.keeps (record { act = swap dir; outcome = none } ∷ h) (ground (arith, u, c))
    after_swap-keeps (some x) h s u c = ground (arith, u, c)

    -- Behind the swap everything may need the release, which is live unless the swap fails.
    pub swap_to-Lawful : Sound next → Lawful (swap_to host cmd dir next)
    unfolding swap_to and_then settle perform
    swap_to-Lawful s = record {
      tells = λ h u e. after_swap-tells (host.outcome h (swap dir)) h s u e;
      quiet = λ h g. after_swap-guards (host.outcome h (swap dir)) h s g;
      lives = λ h e. after_swap-lives (host.outcome h (swap dir)) h s e;
    }

    pub swap_to-Careful : Sound next → Careful (swap_to host cmd dir next)
    unfolding swap_to and_then settle perform
    swap_to-Careful s h u c = after_swap-keeps (host.outcome h (swap dir)) h s u c

    pub swap_to-Fails : Fails next → Fails (swap_to host cmd dir next)
    unfolding swap_to
    swap_to-Fails n = and_then-Fails _ _ _ n

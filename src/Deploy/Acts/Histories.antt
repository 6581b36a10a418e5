-- ===== src/Deploy/Acts/Histories.antt =====
-- Histories of a deploy: what has succeeded, and what came before what.
use cron_compose.Prelude.{Bool, true, false, not, ◌||◌, ◌&&◌, List, [], ◌∷◌, Option, none, some}
use cron_compose.Deploy.Acts.{
  pre_starting, building, cleaning, Part, Act, prune, script, start_process, probe, persist, swap,
  Did,
}

abbrev pub is_none : {A : Type 0} → Option A → Bool
is_none none = true
is_none (some a) = false

abbrev pub is_swap : Act → Bool
is_swap (swap dir) = true
is_swap a = false

-- `Prune` reports no errors.
abbrev pub is_ignored : Act → Bool
is_ignored prune = true
is_ignored a = false

abbrev pub starts_part : Part → Bool
starts_part building = false
starts_part cleaning = false
starts_part pre_starting = true

-- What needs a live release: the pre-start scripts, the processes, the probes and the boot persistence.
abbrev pub needs_release : Act → Bool
needs_release (script j) = starts_part j.part
needs_release (start_process p) = true
needs_release (probe p) = true
needs_release (persist work pm) = true
needs_release a = false

-- Everything that was done succeeded.
unfoldable pub is_spotless : List Did → Bool
is_spotless [] = true
is_spotless (d ∷ h) = (is_none d.outcome || is_ignored d.act) && is_spotless h

-- A release was made live.
unfoldable pub is_live : List Did → Bool
is_live [] = false
is_live (d ∷ h) = (is_swap d.act && is_none d.outcome) || is_live h

-- Whatever needs a live release came after one was made live.
unfoldable pub is_guarded : List Did → Bool
is_guarded [] = true
is_guarded (d ∷ h) = (not (needs_release d.act) || is_live h) && is_guarded h

-- Whatever made a release live came after nothing but successes.
unfoldable pub is_careful : List Did → Bool
is_careful [] = true
is_careful (d ∷ h) = (not (is_swap d.act) || is_spotless h) && is_careful h

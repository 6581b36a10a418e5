-- ===== src/Store/Tests.antt =====
-- Saves of jobs and histories in a data directory in memory, and the theorems at concrete inputs.
use cron_compose.Prelude.{string_eq, ◌≡◌, refl, true, false, [], ◌∷◌, some}
use cron_compose.Store.Memory.{Dir, memory, write, rename}
use cron_compose.Store.Encoding.{json, nightly, encode}
use cron_compose.Prelude.Map.{get, put}
use cron_compose.Store.Atomic.{SavesJobs, save_jobs-SavesJobs}
use cron_compose.Store.{save_jobs, load_jobs}

-- A first process saved the job; the disk is full then.
abbrev roomy : Dir
roomy = (false, [])

abbrev full : Dir
full = (true, ("jobs.json", 1 ∷ []) ∷ [])

save_jobs-load_jobs :
    load_jobs memory json (save_jobs memory json (nightly ∷ []) roomy).0 ≡ some (nightly ∷ [])
unfolding save_jobs load_jobs encode write rename get put
save_jobs-load_jobs = (save_jobs-SavesJobs memory json (nightly ∷ []) roomy).new refl

-- A save on a full disk fails and leaves the definitions there.
save_jobs-full :
    save_jobs memory json [] full
    ≡ ((true, ("jobs.json", 1 ∷ []) ∷ ("jobs.json.tmp", []) ∷ []), false)
unfolding save_jobs encode write put
save_jobs-full = refl

save_jobs-SavesJobs_example : SavesJobs memory json [] full (save_jobs memory json [] full)
save_jobs-SavesJobs_example = save_jobs-SavesJobs memory json [] full

-- ===== src/Deploy/Stages/Quiet.antt =====
-- The scripts that run before a release is live need none that is.
use cron_compose.Prelude.{◌≡◌, refl, false, List, [], ◌∷◌, Bytes, bytes_eq, All}
use cron_compose.Deploy.Plan.{App, Project}
use cron_compose.Deploy.Places.{apps_of}
use cron_compose.Deploy.Acts.{Job, Host}
use cron_compose.Deploy.Acts.Histories.{starts_part}
use cron_compose.Deploy.Acts.Sound.{IsQuiet}
use cron_compose.Deploy.Stages.{with_job, install_jobs, cleanup_jobs, install_apps, cleanup_apps}
use cron_compose.Deploy.Stages.Sound.{run_app_scripts-IsQuiet}

with_job-IsEarly :
    (body : Bytes) (j : Job) (js : List Job)
    → starts_part j.part ≡ false
    → All (λ i. starts_part i.part ≡ false) js
    → All (λ i. starts_part i.part ≡ false) (with_job body j js)
with_job-IsEarly [] j js n all = all
with_job-IsEarly (c ∷ body) j js n all = (n, all)

module _ (host : Host) (cmd : Project) where
  install_jobs-IsEarly :
      (root : Bytes) (apps : List App)
      → All (λ j. starts_part j.part ≡ false) (install_jobs host cmd root apps)
  unfolding install_jobs
  install_jobs-IsEarly root [] = tt
  install_jobs-IsEarly root (a ∷ apps) =
      with_job-IsEarly _ _ _ refl (install_jobs-IsEarly root apps)

  cleanup_jobs-IsEarly :
      (root : Bytes) (apps : List App)
      → All (λ j. starts_part j.part ≡ false) (cleanup_jobs host cmd root apps)
  unfolding cleanup_jobs
  cleanup_jobs-IsEarly root [] = tt
  cleanup_jobs-IsEarly root (a ∷ apps) =
      with_job-IsEarly _ _ _ refl (cleanup_jobs-IsEarly root apps)

  pub install_apps-IsQuiet : (release : Bytes) → IsQuiet (install_apps host cmd release)
  unfolding install_apps
  install_apps-IsQuiet release h =
      run_app_scripts-IsQuiet host _
        (install_jobs-IsEarly release (apps_of (host.exists h) cmd release)) h

  pub cleanup_apps-IsQuiet : (release : Bytes) → IsQuiet (cleanup_apps host cmd release)
  unfolding cleanup_apps
  cleanup_apps-IsQuiet release h =
      run_app_scripts-IsQuiet host _
        (cleanup_jobs-IsEarly release (apps_of (host.exists h) cmd release)) h

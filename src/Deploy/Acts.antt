-- ===== src/Deploy/Acts.antt =====
-- What a deploy of agent/internal/deploy does to its host, one act after the other, with how each one
-- ended. A history has the newest act first. The acts of scripts that run in parallel stand in the
-- order of their apps.
pub mod Histories
pub mod Sound
pub mod Lawful
use cron_compose.Prelude.{
  Bool, true, false, ◌||◌, ◌&&◌, List, [], ◌∷◌, ◌++◌, Option, none, some, Bytes, bytes_eq, ◌==◌,
}
use cron_compose.Prelude.Int.{ℤ}
use cron_compose.Prelude.Text.{codes}
use cron_compose.Deploy.Plan.{App}

pub data Part : Type 0 where
  building cleaning pre_starting : Part

-- An `appScript`.
pub record Job : Type 0 where
  pub part : Part
  pub label : Bytes
  pub work : Bytes
  pub script : Bytes
  pub env : List (Bytes × Bytes)

-- What `startProcess` is called with. `is_run` tells the Run phase from the Start phase.
pub record Process : Type 0 where
  pub is_run : Bool
  pub app : App
  pub app_name : Bytes
  pub work : Bytes
  pub process_manager : Bytes
  pub port : ℤ
  pub env : List (Bytes × Bytes)

-- A `healthConfig`, before its URL is put together.
pub record Probe : Type 0 where
  pub path : Bytes
  pub port : ℤ
  pub seconds : ℤ

pub data Act : Type 0 where
  resolve_user preflight migrate clone materialize write_envs prune : Act
  script : Job → Act
  start_process : Process → Act
  probe : Probe → Act
  persist : Bytes → Bytes → Act
  swap : Bytes → Act

-- `outcome` is the error of an act, if it has one.
pub record Did : Type 0 where
  pub act : Act
  pub outcome : Option Bytes

abbrev pub Run : Type 0 → Type 0
Run E = List Did → Option E × List Did

-- What an act comes to, and what the deploy reads, given what was done before.
pub record Host : Type 0 where
  pub outcome : List Did → Act → Option Bytes
  pub exists : List Did → Bytes → Bool
  pub needs_migration : List Did → Bool
  pub find_release : List Did → Bytes → Option Bytes
  pub release : List Did → Bytes

unfoldable pub perform : Host → Act → Run Bytes
perform host a h = (host.outcome h a, record { act = a; outcome = host.outcome h a } ∷ h)

abbrev pub nothing : {E : Type 0} → Run E
nothing h = (none, h)

abbrev pub fail_with : {E : Type 0} → Option E → Run E
fail_with e h = (e, h)

-- How a run goes on after its error, or without one.
abbrev pub settled :
    {E F : Type 0} → (E → Run F) → Run F → Option E × List Did → Option F × List Did
settled handle next (none, h) = next h
settled handle next (some e, h) = handle e h

unfoldable pub settle : {E F : Type 0} → Run E → (E → Run F) → Run F → Run F
settle f handle next h = settled handle next (f h)

-- The first error ends the run, in the caller's words.
unfoldable pub and_then : {E F : Type 0} → (E → F) → Run E → Run F → Run F
unfolding settle
and_then told f next = settle f (λ e. fail_with (some (told e))) next

abbrev pub with_error : Option Bytes → List Bytes → List Bytes
with_error none es = es
with_error (some e) es = e ∷ es

-- Each in turn, whatever errors there are.
unfoldable pub each : {A : Type 0} → (A → Run Bytes) → List A → List Did → List Bytes × List Did
each f [] h = ([], h)
each f (a ∷ rest) h = let r = f a h in let s = each f rest r.1 in (with_error r.0 s.0, s.1)

unfoldable pub with_semicolons : List Bytes → Bytes
with_semicolons [] = []
with_semicolons (e ∷ []) = e
with_semicolons (e ∷ d ∷ es) = e ++ (codes "; " ++ with_semicolons (d ∷ es))

-- `joinErrors`.
abbrev pub join_errors : List Bytes → Option Bytes
join_errors [] = none
join_errors (e ∷ es) = some (with_semicolons (e ∷ es))

unfoldable pub each_joined : {A : Type 0} → (A → Run Bytes) → List A → Run Bytes
unfolding each
each_joined f xs h = let r = each f xs h in (join_errors r.0, r.1)

-- `noteLaunched` and `wasLaunched`: the apps whose Run phase succeeded in this deploy.
abbrev launched_by : Bytes → Act → Option Bytes → Bool
launched_by name (start_process p) none = p.is_run && p.app_name == name
launched_by name a o = false

unfoldable pub was_launched : Bytes → List Did → Bool
was_launched name [] = false
was_launched name (d ∷ h) = launched_by name d.act d.outcome || was_launched name h

-- A `phaseError`; the phase is empty where the error has none.
pub record Failure : Type 0 where
  pub phase : Bytes
  pub text : Bytes

abbrev pub in_phase : Bytes → Bytes → Failure
in_phase p e = record { phase = p; text = e }

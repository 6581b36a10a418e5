-- ===== src/Connectors/Files.antt =====
-- `writeFileAtomic` and `removeFile` of agent/internal/connectors/safety.go.
pub mod Atomic
pub mod Outcome
use cron_compose.Prelude.{
  ℕ, zero, suc, ◌+◌, ◌/◌, ◌%◌, Bool, true, false, ◌||◌, List, [], ◌∷◌, ◌++◌, Option, none, some,
  Bytes, if◌then◌else◌,
}
use cron_compose.Prelude.Text.{codes}
use cron_compose.Prelude.Paths.{dir}
use cron_compose.Connectors.Host.{Host, Made, made, refused, Removed, removed, absent, stuck}
use cron_compose.Connectors.Privilege.{priv_run, trim_output}

-- An error: `errNoPrivilege`, or a text.
pub data Fault : Type 0 where
  no_privilege : Fault
  failure : Bytes → Fault

abbrev pub Error : Type 0
Error = Option Fault

abbrev pub digits8 : ℕ → Bytes
digits8 m = (b'0' + m / 512 % 8) ∷ (b'0' + m / 64 % 8) ∷ (b'0' + m / 8 % 8) ∷ (b'0' + m % 8) ∷ []

module _ (H : Host) where
  open H use {State, mode, open_write, create_temp, write, sync, close, chmod, rename, remove}

  abbrev pub Call : Type 0
  Call = State → Error × State

  -- One call of the operating system, and then the rest if it went well.
  infixr 6 ◌then_do◌
  abbrev pub ◌then_do◌ : (State → Option Bytes × State) → Call → Call
  ◌then_do◌ m k s =
      let (e, s') = m s in elim e [ none ↦ k s' | some msg ↦ (some (failure msg), s') ]

  abbrev pub succeed : Call
  succeed s = (none, s)

  -- A failed call is followed by `Close`, whose own error is not read.
  abbrev pub or_close : Bytes → (State → Option Bytes × State) → State → Option Bytes × State
  or_close tmp m s =
      let (e, s') = m s in elim e [ none ↦ (none, s') | some msg ↦ (some msg, (close tmp s').1) ]

  -- `defer os.Remove`.
  abbrev pub then_remove : Bytes → Error × State → Error × State
  then_remove tmp (e, s) = (e, (remove tmp s).1)

  unfoldable pub writable : Bytes → State → Bool
  writable path s = open_write path s

  -- Makes a file in the directory and takes it away again.
  after_probe : Made × State → Bool × State
  after_probe (refused _, s) = (false, s)
  after_probe (made name, s) = (true, (remove name (close name s).1).1)

  unfoldable pub dir_writable : Bytes → State → Bool × State
  unfolding after_probe
  dir_writable d s = after_probe (create_temp d (codes ".croncompose-probe-*") s)

  unfoldable pub fill_and_rename : ℕ → Bytes → Bytes → Bytes → Call
  fill_and_rename m path content tmp =
      or_close tmp (write tmp content)
      then_do or_close tmp (sync tmp)
      then_do close tmp
      then_do chmod tmp m
      then_do rename tmp path
      then_do succeed

  on_temp : (Bytes → Call) → Made × State → Error × State
  on_temp k (refused msg, s) = (some (failure msg), s)
  on_temp k (made tmp, s) = then_remove tmp (k tmp s)

  unfoldable pub write_direct : ℕ → Bytes → Bytes → Call
  unfolding on_temp fill_and_rename
  write_direct m path content s =
      on_temp (fill_and_rename m path content) (create_temp (dir path) (codes ".croncompose-*") s)

  -- What `privRun` says, with the tool's name before the text of an error.
  privileged : Bytes → Option (Bytes × Option Bytes) × State → Error × State
  privileged tool (none, s) = (some no_privilege, s)
  privileged tool (some (out, none), s) = (none, s)
  privileged tool (some (out, some _), s) =
      (some (failure (tool ++ codes ": " ++ trim_output out)), s)

  unfoldable pub install : ℕ → Bytes → Bytes → Call
  unfolding privileged priv_run
  install m path tmp s =
      privileged (codes "install")
        (priv_run H (codes "install") (codes "-m" ∷ digits8 m ∷ tmp ∷ path ∷ []) s)

  unfoldable pub stage_and_install : ℕ → Bytes → Bytes → Bytes → Call
  unfolding install
  stage_and_install m path content tmp =
      or_close tmp (write tmp content) then_do close tmp then_do install m path tmp

  unfoldable pub write_privileged : ℕ → Bytes → Bytes → Call
  unfolding on_temp stage_and_install
  write_privileged m path content s =
      on_temp (stage_and_install m path content) (create_temp [] (codes "croncompose-cfg-*") s)

  -- 0644, unless there is a file.
  unfoldable pub mode_for : Bytes → State → ℕ
  mode_for path s = elim (mode path s) [ none ↦ 420 | some m ↦ m ]

  -- `writable(path) || dirWritable(dir)`, of which the second part leaves the state that it leaves.
  unfoldable pub can_write : Bytes → State → Bool × State
  unfolding writable dir_writable
  can_write path s = if writable path s then (true, s) else dir_writable (dir path) s

  by_means : ℕ → Bytes → Bytes → Bool × State → Error × State
  by_means m path content (direct, s) =
      if direct then write_direct m path content s else write_privileged m path content s

  unfoldable pub write_file_atomic : Bytes → Bytes → Call
  unfolding can_write mode_for by_means write_direct write_privileged
  write_file_atomic path content s = by_means (mode_for path s) path content (can_write path s)

  moved_away : Bytes → Removed × State → Error × State
  moved_away path (removed, s) = (none, s)
  moved_away path (absent, s) = (none, s)
  moved_away path (stuck _, s) =
      privileged (codes "mv")
        (priv_run H (codes "mv") (path ∷ (path ++ codes ".croncompose-rolled-back") ∷ []) s)

  unfoldable pub remove_file : Bytes → Call
  unfolding moved_away privileged priv_run
  remove_file path s = moved_away path (remove path s)

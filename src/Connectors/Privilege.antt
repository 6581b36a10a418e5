-- ===== src/Connectors/Privilege.antt =====
-- privexec.go, exec.go, servicemgr.go and `serviceStatus` of agent/internal/connectors: commands, run
-- with sudo where they have to be, and what their callers make of the output.
pub mod Reads
use cron_compose.Prelude.{
  ℕ, ◌+◌, Bool, true, false, not, ◌&&◌, ◌||◌, List, [], ◌∷◌, ◌++◌, Option, none, some, Bytes,
  bytes_eq, ◌==◌, if◌then◌else◌, leb, ltb,
}
use cron_compose.Prelude.Text.{codes}
use cron_compose.Prelude.Strings.{trim}
use cron_compose.Connectors.Host.{Host}

abbrev pub Bin : Type 0
Bin = Bytes

-- The closed allowlist.
unfoldable pub priv_binaries : Bin → Bool
priv_binaries bin =
    bin == codes "systemctl"
    || bin == codes "systemd-analyze"
    || bin == codes "nginx"
    || bin == codes "tee"
    || bin == codes "cp"
    || bin == codes "mv"
    || bin == codes "install"
    || bin == codes "ufw"
    || bin == codes "ss"
    || bin == codes "lsof"
    || bin == codes "nmcli"
    || bin == codes "bluetoothctl"
    || bin == codes "mmcli"
    || bin == codes "netplan"
    || bin == codes "iw"
    || bin == codes "ip"

-- The bytes of a character in UTF-8.
abbrev utf8_width : ℕ → ℕ
utf8_width c = if ltb c 128 then 1 else (if ltb c 2048 then 2 else (if ltb c 65536 then 3 else 4))

unfoldable pub utf8_length : Bytes → ℕ
utf8_length [] = 0
utf8_length (c ∷ s) = utf8_width c + utf8_length s

-- The characters that end within the first `max` bytes, the first `used` of them taken before.
unfoldable pub take_from : ℕ → ℕ → Bytes → Bytes
take_from used max [] = []
take_from used max (c ∷ s) =
    let rest = take_from (used + utf8_width c) max s in
    if leb (used + utf8_width c) max then c ∷ rest else []

abbrev pub max_output : ℕ
max_output = 8000

-- A character that the cut splits is left out.
unfoldable pub cut_output : Bytes → Bytes
unfolding utf8_length take_from
cut_output s =
    if leb (utf8_length s) max_output
    then s
    else take_from 0 max_output s ++ 10 ∷ codes "... (truncated)"

unfoldable pub trim_output : Bytes → Bytes
unfolding cut_output
trim_output s = cut_output (trim s)

module _ (H : Host) where
  open H use {State, look_path, exec, is_root, is_dir}

  unfoldable pub has : Bin → State → Bool
  has bin s = elim (look_path bin s) [ none ↦ false | some _ ↦ true ]

  -- `sudo -n -l`, whose exit status is the answer.
  may_sudo : Option Bytes → State → Bool × State
  may_sudo none s = (false, s)
  may_sudo (some path) s =
      let ((_, err), s') = exec (codes "sudo") (codes "-n" ∷ codes "-l" ∷ path ∷ []) s in
      (elim err [ none ↦ true | some _ ↦ false ], s')

  unfoldable pub can_sudo : Bin → State → Bool × State
  unfolding has may_sudo
  can_sudo bin s =
      if priv_binaries bin && has (codes "sudo") s then may_sudo (look_path bin s) s else (false, s)

  -- The output and the error; `none` if the agent lacks the privilege.
  unfoldable pub priv_run : Bin → List Bytes → State → Option (Bytes × Option Bytes) × State
  unfolding can_sudo
  priv_run bin args s =
      if is_root s
      then (let (r, s') = exec bin args s in (some r, s'))
      else (let (may, s') = can_sudo bin s in
          if may
          then (let (r, s'') = exec (codes "sudo") (codes "-n" ∷ bin ∷ args) s' in (some r, s''))
          else (none, s'))

  unfoldable pub systemd_available : State → Bool
  unfolding has
  systemd_available s = has (codes "systemctl") s && is_dir (codes "/run/systemd/system") s

  status_of : Bytes → Bytes
  status_of out =
      if out == codes "active"
      then codes "running"
      else (if out == codes "inactive" || out == codes "failed" || out == codes "deactivating"
          then codes "stopped"
          else codes "unknown")

  unfoldable pub service_status : Bytes → State → Bytes × State
  unfolding status_of systemd_available
  service_status unit s =
      if systemd_available s
      then (let ((out, _), s') = exec (codes "systemctl") (codes "is-active" ∷ unit ∷ []) s in
          (status_of out, s'))
      else (codes "unknown", s)

-- ===== src/Users.antt =====
-- agent/internal/osuser: who a child process may run as.
use Prim.Native.String.{String}
use cron_compose.Prelude.{
  ℕ, Bool, List, [], ◌∷◌, ◌++◌, Option, none, some, Bytes, bytes_eq, nat_eq, ◌==◌, if◌then◌else◌,
}
use cron_compose.Prelude.Text.{codes}

-- `user.User`; `none` where `strconv.ParseUint` refuses the text of the number for 32 bits.
pub record Account : Type 0 where
  pub username : Bytes
  pub uid : Option ℕ
  pub gid : Option ℕ
  pub home : Bytes

-- `user.Lookup`: there is no such user, another error, or the account.
pub data Lookup : Type 0 where
  unknown : Lookup
  broken : Bytes → Lookup
  found : Account → Lookup

pub record Credential : Type 0 where
  pub username : Bytes
  pub uid : ℕ
  pub gid : ℕ
  pub home : Bytes
  pub shell : Bytes

pub data Resolved : Type 0 where
  -- A nil credential: nothing changes.
  stay : Resolved
  switch : Credential → Resolved
  refuse : Bytes → Resolved

-- The agent's process and the user database: `os.Getuid`, `os.Geteuid() == 0`, and `loginShell`.
pub record Process : Type 0 where
  pub lookup : Bytes → Lookup
  pub uid : ℕ
  pub is_root : Bool
  pub login_shell : Bytes → Bytes

module _ (P : Process) where
  open P use {lookup, uid, is_root, login_shell}

  -- `canSwitchTo`.
  abbrev can_switch : Bool
  can_switch = is_root

  with_ids : Bytes → Account → Option ℕ → Option ℕ → Resolved
  with_ids name u none g = refuse (codes "unusable uid for " ++ name)
  with_ids name u (some i) none = refuse (codes "unusable gid for " ++ name)
  with_ids name u (some i) (some g) =
      if i == uid
      then stay
      else (if can_switch
          then switch (record {
            username = u.username;
            uid = i;
            gid = g;
            home = u.home;
            shell = login_shell u.username;
          })
          else refuse (
              codes "agent is not running as root, so it cannot switch users (wanted "
              ++ (name ++ codes ")")))

  on_lookup : Bytes → Lookup → Resolved
  on_lookup name unknown = refuse (codes "no such user on this server: " ++ name)
  on_lookup name (broken e) = refuse e
  on_lookup name (found u) = with_ids name u u.uid u.gid

  unfoldable pub resolve : Bytes → Resolved
  unfolding on_lookup with_ids
  resolve [] = stay
  resolve (c ∷ name) = on_lookup (c ∷ name) (lookup (c ∷ name))

-- The lines of a text.
unfoldable pub unlines : List String → Bytes
unlines [] = []
unlines (l ∷ ls) = 10 ∷ codes l ++ unlines ls

-- `ToolchainPrelude`, which begins and ends with a line break.
unfoldable pub toolchain_prelude : Bytes
unfolding unlines
toolchain_prelude = unlines (
    "# CronCompose: load user toolchains for non-interactive shells."
    ∷ "[ -f \"$HOME/.profile\" ] && . \"$HOME/.profile\" >/dev/null 2>&1 || true"
    ∷ "export NVM_DIR=\"${NVM_DIR:-$HOME/.nvm}\""
    ∷ "[ -s \"$NVM_DIR/nvm.sh\" ] && . \"$NVM_DIR/nvm.sh\" >/dev/null 2>&1 || true"
    ∷ "# Fallback when nvm.sh did not put node on PATH (common under non-interactive bash)."
    ∷ "if ! command -v node >/dev/null 2>&1 && [ -d \"$NVM_DIR/versions/node\" ]; then"
    ∷ "  _cc_latest=$(ls -1d \"$NVM_DIR/versions/node\"/v* 2>/dev/null | sort -V | tail -n1)"
    ∷ "  if [ -n \"$_cc_latest\" ] && [ -d \"$_cc_latest/bin\" ]; then"
    ∷ "    PATH=\"$_cc_latest/bin:$PATH\"" ∷ "  fi" ∷ "  unset _cc_latest" ∷ "fi"
    ∷ "command -v fnm >/dev/null 2>&1 && eval \"$(fnm env)\" >/dev/null 2>&1 || true"
    ∷ "[ -s \"$HOME/.asdf/asdf.sh\" ] && . \"$HOME/.asdf/asdf.sh\" >/dev/null 2>&1 || true"
    ∷ "[ -d \"$HOME/.local/bin\" ] && case \":$PATH:\" in *\":$HOME/.local/bin:\"*) ;; *) PATH=\"$HOME/.local/bin:$PATH\" ;; esac"
    ∷ "[ -d \"$HOME/.bun/bin\" ] && case \":$PATH:\" in *\":$HOME/.bun/bin:\"*) ;; *) PATH=\"$HOME/.bun/bin:$PATH\" ;; esac"
    ∷ "[ -d \"$HOME/.local/go/bin\" ] && case \":$PATH:\" in *\":$HOME/.local/go/bin:\"*) ;; *) PATH=\"$HOME/.local/go/bin:$PATH\" ;; esac"
    ∷ "export PATH" ∷ "" ∷ [])

unfoldable pub wrap_script : Bytes → Bytes
wrap_script script = toolchain_prelude ++ 10 ∷ script

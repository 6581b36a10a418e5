-- ===== src/Connectors/Host.antt =====
-- What agent/internal/connectors takes from the operating system: files by path, and commands.
use cron_compose.Prelude.{
  ℕ, ◌≡◌, ◌≢◌, Bool, true, false, ◌||◌, ◌&&◌, List, [], ◌∷◌, Option, none, Bytes, bytes_eq, ◌==◌,
}
use cron_compose.Prelude.Text.{codes}

-- `os.ReadFile`: the file is not there, cannot be read for a reason, or has this content.
pub data Read : Type 0 where
  missing : Read
  unreadable : Bytes → Read
  content : Bytes → Read

-- `os.CreateTemp`: the new file's name, or the error.
pub data Made : Type 0 where
  made : Bytes → Made
  refused : Bytes → Made

-- `os.Remove`.
pub data Removed : Type 0 where
  removed absent : Removed
  stuck : Bytes → Removed

-- A call that may fail returns `none` or the text of its error. `exec` is `exec.Cmd.Run`, with the
-- trimmed output of the command; `pause` is true if the time passed before the context ended.
-- `may_be_temp` holds of the names that `os.CreateTemp` can make from the patterns in use.
pub record Host : Type 1 where
  pub State : Type 0
  pub read : Bytes → State → Read
  pub mode : Bytes → State → Option ℕ
  pub open_write : Bytes → State → Bool
  pub is_dir : Bytes → State → Bool
  pub create_temp : Bytes → Bytes → State → Made × State
  pub write : Bytes → Bytes → State → Option Bytes × State
  pub sync : Bytes → State → Option Bytes × State
  pub close : Bytes → State → Option Bytes × State
  pub chmod : Bytes → ℕ → State → Option Bytes × State
  pub rename : Bytes → Bytes → State → Option Bytes × State
  pub remove : Bytes → State → Removed × State
  pub is_root : State → Bool
  pub look_path : Bytes → State → Option Bytes
  pub exec : Bytes → List Bytes → State → (Bytes × Option Bytes) × State
  pub pause : State → Bool × State
  pub digest : Bytes → Bytes
  pub may_be_temp : Bytes → Bool

-- The subcommands of systemctl and the flags of nginx that the write pipeline uses.
is_query_of : Bytes → List Bytes → Bool
is_query_of bin [] = false
is_query_of bin (arg ∷ args) =
    (bin == codes "nginx" && (arg == codes "-t" || arg == codes "-s"))
    || (bin == codes "systemctl"
        && (arg == codes "reload"
            || arg == codes "is-active"
            || arg == codes "daemon-reload"
            || arg == codes "try-reload-or-restart"))
    || (bin == codes "systemd-analyze" && arg == codes "verify")

-- Whether a command, by itself or under `sudo -n`, is one that reads configuration and writes none.
unfoldable pub is_query : Bytes → List Bytes → Bool
unfolding is_query_of
is_query bin (n ∷ b ∷ args) =
    is_query_of bin (n ∷ b ∷ args)
    || (bin == codes "sudo" && n == codes "-n" && (b == codes "-l" || is_query_of b args))
is_query bin args = is_query_of bin args

module _ (H : Host) where
  open H use {State, read, create_temp, write, sync, close, chmod, rename, remove, exec, pause}

  -- The documented behaviour: a temporary file is new and empty; a call changes no other file than the
  -- ones that it names; a rename happens as a whole or not at all; `install` and `mv` that exit with 0
  -- did what they say.
  pub record IsLawful : Type 0 where
    pub new_is_temp :
        (d pat t : Bytes) (s : State) → (create_temp d pat s).0 ≡ made t → H.may_be_temp t ≡ true
    pub new_is_empty :
        (d pat t : Bytes) (s : State)
        → (create_temp d pat s).0 ≡ made t
        → read t (create_temp d pat s).1 ≡ content []
    pub read-create_temp :
        (d pat p : Bytes) (s : State)
        → H.may_be_temp p ≡ false
        → read p (create_temp d pat s).1 ≡ read p s
    pub read-write :
        (t b : Bytes) (s : State)
        → read t s ≡ content []
        → (write t b s).0 ≡ none
        → read t (write t b s).1 ≡ content b
    pub read-write_other :
        (t p b : Bytes) (s : State) → (t == p) ≡ false → read p (write t b s).1 ≡ read p s
    pub read-sync : (t p : Bytes) (s : State) → read p (sync t s).1 ≡ read p s
    pub read-close : (t p : Bytes) (s : State) → read p (close t s).1 ≡ read p s
    pub read-chmod : (t p : Bytes) (m : ℕ) (s : State) → read p (chmod t m s).1 ≡ read p s
    pub read-rename :
        (t p : Bytes) (s : State) → (rename t p s).0 ≡ none → read p (rename t p s).1 ≡ read t s
    pub read-rename_failed :
        (t p q : Bytes) (s : State) → (rename t p s).0 ≢ none → read q (rename t p s).1 ≡ read q s
    pub read-remove :
        (p : Bytes) (s : State) → (remove p s).0 ≡ removed → read p (remove p s).1 ≡ missing
    pub read-remove_absent :
        (p : Bytes) (s : State) → (remove p s).0 ≡ absent → read p (remove p s).1 ≡ missing
    pub read-remove_other :
        (t p : Bytes) (s : State) → (t == p) ≡ false → read p (remove t s).1 ≡ read p s
    pub read-install :
        (mode t p : Bytes) (s : State)
        → let r = exec (codes "install") (codes "-m" ∷ mode ∷ t ∷ p ∷ []) s in
          r.0.1 ≡ none → read p r.1 ≡ read t s
    pub read-sudo_install :
        (mode t p : Bytes) (s : State)
        → let r =
            exec (codes "sudo") (codes "-n" ∷ codes "install" ∷ codes "-m" ∷ mode ∷ t ∷ p ∷ []) s in
          r.0.1 ≡ none → read p r.1 ≡ read t s
    pub read-mv :
        (p q : Bytes) (s : State)
        → let r = exec (codes "mv") (p ∷ q ∷ []) s in r.0.1 ≡ none → read p r.1 ≡ missing
    pub read-sudo_mv :
        (p q : Bytes) (s : State)
        → let r = exec (codes "sudo") (codes "-n" ∷ codes "mv" ∷ p ∷ q ∷ []) s in
          r.0.1 ≡ none → read p r.1 ≡ missing
    pub read-query :
        (bin : Bytes) (args : List Bytes) (p : Bytes) (s : State)
        → is_query bin args ≡ true
        → read p (exec bin args s).1 ≡ read p s
    pub read-pause : (p : Bytes) (s : State) → read p (pause s).1 ≡ read p s

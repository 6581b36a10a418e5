-- ===== src/Connectors/Files/Outcome.antt =====
-- What `writeFileAtomic` and `removeFile` of agent/internal/connectors/safety.go promise.
use cron_compose.Prelude.{
  ◌≡◌, ◌≢◌, refl, ◌∙◌, Bool, true, false, [], ◌∷◌, ◌++◌, none, some, Bytes, bytes_eq, arith,
}
use cron_compose.Prelude.Text.{codes}
use cron_compose.Prelude.Paths.{dir}
use cron_compose.Connectors.Host.{
  Host, IsLawful, missing, content, Made, made, refused, Removed, removed, absent, stuck,
}
use cron_compose.Connectors.Privilege.{can_sudo}
use cron_compose.Connectors.Files.Atomic.{temp_apart, write_direct-Sets, write_privileged-Sets}
use cron_compose.Connectors.Privilege.Reads.{priv_run-cases}
use cron_compose.Connectors.Files.{
  Error, no_privilege, privileged, mode_for, can_write, dir_writable, after_probe, by_means,
  write_file_atomic, moved_away, remove_file,
}

module _ (H : Host) (path : Bytes) where
  open H use {State, read}

  -- Whether the agent writes the file by itself.
  abbrev pub IsDirect : State → Type 0
  IsDirect s = (can_write H path s).0 ≡ true

  -- Nil means that the file holds the new content. An error leaves it as it was, if the agent writes
  -- it by itself or has no privilege to have it written.
  pub record Wrote (b : Bytes) (s : State) (r : Error × State) : Type 0 where
    pub written : r.0 ≡ none → read path r.1 ≡ content b
    pub direct : IsDirect s → r.0 ≢ none → read path r.1 ≡ read path s
    pub unprivileged : r.0 ≡ some no_privilege → read path r.1 ≡ read path s

module _ (H : Host) (L : IsLawful H) (path : Bytes) where
  open H use {
    State, read, create_temp, write, sync, close, chmod, rename, remove, exec, may_be_temp,
  }

  module _ (named : may_be_temp path ≡ false) where
    read-dir_writable : (d : Bytes) (s : State) → read path (dir_writable H d s).1 ≡ read path s
    unfolding dir_writable after_probe
    read-dir_writable d s = by_made (create_temp d pat s).0 refl
      where
        pat : Bytes
        pat = codes ".croncompose-probe-*"

        by_made :
            (o : Made)
            → (create_temp d pat s).0 ≡ o
            → read path (after_probe H (o, (create_temp d pat s).1)).1 ≡ read path s
        by_made (refused e) h = L.read-create_temp d pat path s named
        by_made (made t) h =
            L.read-remove_other t path _ (temp_apart H L path named t (L.new_is_temp d pat t s h))
            ∙ (L.read-close t path _ ∙ L.read-create_temp d pat path s named)

    read-can_write : (s : State) → read path (can_write H path s).1 ≡ read path s
    unfolding can_write
    read-can_write s = ground (arith, read-dir_writable (dir path) s)

    -- Nil means that the file holds the new content. An error leaves what it held before, if the agent
    -- writes the file by itself, or if the error is that it lacks the privilege to have it written.
    pub write_file_atomic-Wrote :
        (b : Bytes) (s : State) → Wrote H path b s (write_file_atomic H path b s)
    unfolding write_file_atomic by_means
    write_file_atomic-Wrote b s = by_direct (can_write H path s).0 refl
      where
        s1 : State
        s1 = (can_write H path s).1

        by_direct :
            (d : Bool)
            → (can_write H path s).0 ≡ d
            → Wrote H path b s (by_means H (mode_for H path s) path b (d, s1))
        by_direct true h =
            let w = write_direct-Sets H L path named (mode_for H path s) b s1 in
            record {
              written = w.written;
              direct = λ _ n. w.kept n ∙ read-can_write s;
              unprivileged = λ u. w.kept (λ n. ground (arith, u, n)) ∙ read-can_write s;
            }
        by_direct false h =
            let w = write_privileged-Sets H L path named (mode_for H path s) b s1 in
            record {
              written = w.written;
              direct = λ d n. ground (arith, d, h);
              unprivileged = λ u. w.kept u ∙ read-can_write s;
            }

  -- Nil means that there is no file.
  pub remove_file_lem :
      (s : State) → (remove_file H path s).0 ≡ none → read path (remove_file H path s).1 ≡ missing
  unfolding remove_file moved_away privileged
  remove_file_lem s = by_removed (remove path s).0 refl
    where
      s1 : State
      s1 = (remove path s).1

      by_removed :
          (o : Removed)
          → (remove path s).0 ≡ o
          → (moved_away H path (o, s1)).0 ≡ none
          → read path (moved_away H path (o, s1)).1 ≡ missing
      by_removed removed h n = L.read-remove path s h
      by_removed absent h n = L.read-remove_absent path s h
      by_removed (stuck e) h n =
          let q = path ++ codes ".croncompose-rolled-back" in
          let bin = codes "mv" in
          priv_run-cases H
            (λ r. (privileged H bin r).0 ≡ none → read path (privileged H bin r).1 ≡ missing) bin
            (path ∷ q ∷ []) s1 (λ n. ground (arith, n, L.read-mv path q s1))
            (λ n. ground (arith, n, L.read-sudo_mv path q (can_sudo H bin s1).1))
            (λ n. ground (arith, n)) n

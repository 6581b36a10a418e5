-- ===== src/Connectors/Files/Atomic.antt =====
-- `writeFileAtomic` leaves the new content if it returns nil. Written directly, the file is otherwise
-- what it was; `removeFile` that returns nil leaves no file.
use cron_compose.Prelude.{
  ℕ, ◌≡◌, ◌≢◌, refl, ap, ◌∙◌, true, false, [], ◌∷◌, Option, none, some, Bytes, bytes_eq, ◌==◌,
  ==_iff, arith, Bool-cases, inl, inr,
}
use cron_compose.Prelude.Text.{codes}
use cron_compose.Prelude.Paths.{dir}
use cron_compose.Connectors.Host.{Host, IsLawful, content, Made, made, refused}
use cron_compose.Connectors.Privilege.{can_sudo}
use cron_compose.Connectors.Privilege.Reads.{read-can_sudo, priv_run-cases}
use cron_compose.Connectors.Files.{
  Error, no_privilege, fill_and_rename, on_temp, write_direct, privileged, install,
  stage_and_install, write_privileged, digits8,
}

abbrev pub Failed : Error → Type 0
Failed e = e ≢ none

abbrev pub Unprivileged : Error → Type 0
Unprivileged e = e ≡ some no_privilege

module _ (H : Host) (L : IsLawful H) (path : Bytes) where
  open H use {
    State, read, create_temp, write, sync, close, chmod, rename, remove, exec, may_be_temp,
  }

  -- The file holds the new content after nil, and what it held before after the errors of this kind.
  pub record Sets (E : Error → Type 0) (b : Bytes) (s : State) (r : Error × State) : Type 0 where
    pub written : r.0 ≡ none → read path r.1 ≡ content b
    pub kept : E r.0 → read path r.1 ≡ read path s

  module _ (tmp : Bytes) (apart : (tmp == path) ≡ false) where
    fill_and_rename-Sets :
        (m : ℕ) (b : Bytes) (s : State)
        → read tmp s ≡ content []
        → Sets Failed b s (fill_and_rename H m path b tmp s)
    unfolding fill_and_rename
    fill_and_rename-Sets m b s empty =
        let s1 : State = (write tmp b s).1 in
        let s2 : State = (sync tmp s1).1 in
        let s3 : State = (close tmp s2).1 in
        let s4 : State = (chmod tmp m s3).1 in
        ground (
          arith,
          L.read-write tmp b s empty,
          L.read-write_other tmp path b s apart,
          L.read-close tmp path s1,
          L.read-sync tmp path s1,
          L.read-sync tmp tmp s1,
          L.read-close tmp path s2,
          L.read-close tmp tmp s2,
          L.read-chmod tmp path m s3,
          L.read-chmod tmp tmp m s3,
          L.read-rename tmp path s4,
          L.read-rename_failed tmp path path s4,
        )

  module _ (named : may_be_temp path ≡ false) where
    pub temp_apart : (t : Bytes) → may_be_temp t ≡ true → (t == path) ≡ false
    temp_apart t h = elim (Bool-cases (t == path)) [
      | inl e ↦
          let e' : t ≡ path = (==_iff t path).0 e in ground (arith, h, named, ap may_be_temp e')
      | inr e ↦ e
    ]

    on_temp-Sets :
        (E : Error → Type 0) (k : Bytes → State → Error × State) (d pat b : Bytes) (s : State)
        → ((t : Bytes) (s' : State)
            → (t == path) ≡ false
            → read t s' ≡ content []
            → Sets E b s' (k t s'))
        → Sets E b s (on_temp H k (create_temp d pat s))
    unfolding on_temp
    on_temp-Sets E k d pat b s keeps = by_made (create_temp d pat s).0 refl
      where
        by_made :
            (o : Made)
            → (create_temp d pat s).0 ≡ o
            → Sets E b s (on_temp H k (o, (create_temp d pat s).1))
        by_made (refused e) h = record {
          written = λ n. ground (arith, n);
          kept = λ n. L.read-create_temp d pat path s named;
        }
        by_made (made t) h =
            let s1 : State = (create_temp d pat s).1 in
            let apart = temp_apart t (L.new_is_temp d pat t s h) in
            let filled = keeps t s1 apart (L.new_is_empty d pat t s h) in
            let swept = L.read-remove_other t path (k t s1).1 apart in
            record {
              written = λ n. swept ∙ filled.written n;
              kept = λ n. swept ∙ (filled.kept n ∙ L.read-create_temp d pat path s named);
            }

    pub write_direct-Sets :
        (m : ℕ) (b : Bytes) (s : State) → Sets Failed b s (write_direct H m path b s)
    unfolding write_direct
    write_direct-Sets m b s =
        on_temp-Sets Failed (fill_and_rename H m path b) (dir path) (codes ".croncompose-*") b s
          λ t s' apart empty. fill_and_rename-Sets t apart m b s' empty

  privileged-Sets :
      (tool b : Bytes) (s s' : State) (o : Bytes × Option Bytes)
      → (o.1 ≡ none → read path s' ≡ content b)
      → Sets Unprivileged b s (privileged H tool (some o, s'))
  unfolding privileged
  privileged-Sets tool b s s' (out, none) h = record {
    written = λ n. h refl;
    kept = λ u. ground (arith, u);
  }
  privileged-Sets tool b s s' (out, some e) h = record {
    written = λ n. ground (arith, n);
    kept = λ u. ground (arith, u);
  }

  -- Nil says that `install` ran to its end, and without privilege nothing happened.
  install-Sets :
      (m : ℕ) (b tmp : Bytes) (s : State)
      → read tmp s ≡ content b
      → Sets Unprivileged b s (install H m path tmp s)
  unfolding install privileged
  install-Sets m b tmp s full =
      let bin = codes "install" in
      let args = codes "-m" ∷ digits8 m ∷ tmp ∷ path ∷ [] in
      let s1 : State = (can_sudo H bin s).1 in
      let ran = exec bin args s in
      let sudo = exec (codes "sudo") (codes "-n" ∷ bin ∷ args) s1 in
      priv_run-cases H (λ r. Sets Unprivileged b s (privileged H bin r)) bin args s
        (privileged-Sets bin b s ran.1 ran.0 λ n. L.read-install (digits8 m) tmp path s n ∙ full)
        (privileged-Sets bin b s sudo.1 sudo.0
          λ n. L.read-sudo_install (digits8 m) tmp path s1 n ∙ (read-can_sudo H L tmp bin s ∙ full))
        (record { written = λ n. ground (arith, n); kept = λ u. read-can_sudo H L path bin s })

  stage_and_install-Sets :
      (m : ℕ) (b tmp : Bytes) (s : State)
      → (tmp == path) ≡ false
      → read tmp s ≡ content []
      → Sets Unprivileged b s (stage_and_install H m path b tmp s)
  unfolding stage_and_install
  stage_and_install-Sets m b tmp s apart empty =
      let s1 : State = (write tmp b s).1 in
      let s2 : State = (close tmp s1).1 in
      let written : (write tmp b s).0 ≡ none → read tmp s2 ≡ content b =
        λ h. L.read-close tmp tmp s1 ∙ L.read-write tmp b s empty h in
      let same : read path s2 ≡ read path s =
        L.read-close tmp path s1 ∙ L.read-write_other tmp path b s apart in
      record {
        written = λ n. ground (
          arith,
          n,
          written,
          λ (f : read tmp s2 ≡ content b). (install-Sets m b tmp s2 f).written,
        );
        kept = λ u. ground (
          arith,
          u,
          written,
          same,
          λ (f : read tmp s2 ≡ content b). (install-Sets m b tmp s2 f).kept,
        );
      }

  module _ (named : may_be_temp path ≡ false) where
    pub write_privileged-Sets :
        (m : ℕ) (b : Bytes) (s : State) → Sets Unprivileged b s (write_privileged H m path b s)
    unfolding write_privileged
    write_privileged-Sets m b s =
        on_temp-Sets named Unprivileged (stage_and_install H m path b) []
          (codes "croncompose-cfg-*") b s
          λ t s' apart empty. stage_and_install-Sets m b t s' apart empty

-- ===== src/Connectors/Privilege/Reads.antt =====
-- Commands of agent/internal/connectors that leave the configuration files as they are.
use cron_compose.Prelude.{
  ◌≡◌, refl, ◌∙◌, Bool, true, false, ◌&&◌, List, [], ◌∷◌, Option, none, some, Bytes, arith,
  bytes_eq, if◌then◌else◌,
}
use cron_compose.Prelude.Text.{codes}
use cron_compose.Connectors.Host.{Host, IsLawful, is_query}
use cron_compose.Connectors.Privilege.{
  priv_binaries, has, may_sudo, can_sudo, priv_run, service_status,
}

-- What holds of a command run as root, of one run under sudo, and of one not run, holds of `privRun`.
pub priv_run-cases :
    (H : Host) (P : Option (Bytes × Option Bytes) × H.State → Type 0) (bin : Bytes)
    (args : List Bytes) (s : H.State)
    → (let r = H.exec bin args s in P (some r.0, r.1))
    → (let r = H.exec (codes "sudo") (codes "-n" ∷ bin ∷ args) (can_sudo H bin s).1 in
        P (some r.0, r.1))
    → P (none, (can_sudo H bin s).1)
    → P (priv_run H bin args s)
unfolding priv_run
priv_run-cases H P bin args s direct sudo denied = by_test (H.is_root s) (can_sudo H bin s).0
  where
    by_test :
        (root may : Bool)
        → P (
            if root
            then (some (H.exec bin args s).0, (H.exec bin args s).1)
            else (if may
                then (let r =
                      H.exec (codes "sudo") (codes "-n" ∷ bin ∷ args) (can_sudo H bin s).1 in
                    (some r.0, r.1))
                else (none, (can_sudo H bin s).1)))
    by_test true may = direct
    by_test false true = sudo
    by_test false false = denied

module _ (H : Host) (L : IsLawful H) (path : Bytes) where
  open H use {State, read, look_path, exec, is_root}

  pub read-can_sudo : (bin : Bytes) (s : State) → read path (can_sudo H bin s).1 ≡ read path s
  unfolding can_sudo may_sudo is_query
  read-can_sudo bin s = by_path (priv_binaries bin && has H (codes "sudo") s) (look_path bin s)
    where
      by_path :
          (allowed : Bool) (o : Option Bytes)
          → read path (if allowed then may_sudo H o s else (false, s)).1 ≡ read path s
      by_path false o = refl
      by_path true none = refl
      by_path true (some p) = L.read-query _ _ path s refl

  pub read-priv_run :
      (bin : Bytes) (args : List Bytes) (s : State)
      → is_query bin args ≡ true
      → is_query (codes "sudo") (codes "-n" ∷ bin ∷ args) ≡ true
      → read path (priv_run H bin args s).1 ≡ read path s
  read-priv_run bin args s direct sudo =
      let e = read-can_sudo bin s in
      priv_run-cases H (λ r. read path r.1 ≡ read path s) bin args s
        (L.read-query bin args path s direct) (L.read-query _ _ path _ sudo ∙ e) e

  pub read-service_status :
      (unit : Bytes) (s : State) → read path (service_status H unit s).1 ≡ read path s
  unfolding service_status is_query
  read-service_status unit s =
      ground (arith, L.read-query (codes "systemctl") (codes "is-active" ∷ unit ∷ []) path s refl)

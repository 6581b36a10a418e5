-- ===== src/Connectors/Nginx/Owned.antt =====
-- The nginx provider of agent/internal/connectors leaves the files alone that the write pipeline
-- writes, and keeps the pipeline away from all others.
use cron_compose.Prelude.{
  ◌≡◌, refl, ◌∙◌, true, false, List, [], ◌∷◌, ◌++◌, Option, none, some, Bytes, bytes_eq, nat_eq,
  ◌==◌, ==_iff, arith, ◌⊎◌, inl, inr, Bool-cases, Option-cases, append_assoc, nat_beq, All,
}
use cron_compose.Prelude.Strings.{strip_prefix}
use cron_compose.Prelude.Paths.{clean}
use cron_compose.Prelude.Text.{codes}
use cron_compose.Connectors.Host.{Host, IsLawful, is_query, Made, made, refused}
use cron_compose.Connectors.Privilege.{priv_run}
use cron_compose.Connectors.Privilege.Reads.{read-priv_run}
use cron_compose.Connectors.Files.Atomic.{temp_apart}
use cron_compose.Connectors.Command.{Command, is_success, Instance}
use cron_compose.Connectors.Apply.{apply_config}
use cron_compose.Connectors.Apply.Outcome.{apply_config-refused}
use cron_compose.Connectors.Apply.Restore.{Leaves}
use cron_compose.Connectors.Nginx.{
  has_prefix, is_under, under_any, owns, outside, check_staged, on_staged, validate_main, validate,
  validate_live, signalled, signal_nginx, after_systemctl, activate, nginx,
}

module _ (H : Host) (L : IsLawful H) (path : Bytes) (named : H.may_be_temp path ≡ false) where
  open H use {State, read, create_temp, write, close, exec}

  read-check_staged :
      (tmp : Bytes) (o : Option Bytes × State) → read path (check_staged H tmp o).1 ≡ read path o.1
  unfolding check_staged is_query
  read-check_staged tmp (some e, s) = L.read-close tmp path s
  read-check_staged tmp (none, s) =
      let args = codes "-t" ∷ codes "-c" ∷ tmp ∷ [] in
      let s1 : State = (close tmp s).1 in
      ground (arith, L.read-query (codes "nginx") args path s1 refl, L.read-close tmp path s)

  read-validate_main : (b : Bytes) (s : State) → read path (validate_main H b s).1 ≡ read path s
  unfolding validate_main on_staged
  read-validate_main b s = by_made (create_temp [] pat s).0 refl
    where
      pat : Bytes
      pat = codes "croncompose-nginx-*.conf"

      by_made :
          (o : Made)
          → (create_temp [] pat s).0 ≡ o
          → read path (on_staged H b (o, (create_temp [] pat s).1)).1 ≡ read path s
      by_made (refused e) h = L.read-create_temp [] pat path s named
      by_made (made t) h =
          let apart = temp_apart H L path named t (L.new_is_temp [] pat t s h) in
          let s1 : State = (create_temp [] pat s).1 in
          L.read-remove_other t path (check_staged H t (write t b s1)).1 apart
          ∙ (read-check_staged t (write t b s1)
              ∙ (L.read-write_other t path b s1 apart ∙ L.read-create_temp [] pat path s named))

  read-signal_nginx :
      (before : Bytes) (s : State) → read path (signal_nginx H before s).1 ≡ read path s
  unfolding signal_nginx signalled is_query
  read-signal_nginx before s =
      ground (
        arith,
        read-priv_run H L path (codes "nginx") (codes "-s" ∷ codes "reload" ∷ []) s refl refl,
      )

  read-after_systemctl :
      (o : Option (Bytes × Option Bytes) × State)
      → read path (after_systemctl H o).1 ≡ read path o.1
  unfolding after_systemctl
  read-after_systemctl (none, s) = read-signal_nginx [] s
  read-after_systemctl (some (out, none), s) = refl
  read-after_systemctl (some (out, some e), s) = read-signal_nginx out s

  read-activate :
      (inst : Instance) (p : Bytes) (s : State) → read path (activate H inst p s).1 ≡ read path s
  unfolding activate is_query
  read-activate inst p s =
      let args = codes "reload" ∷ codes "nginx" ∷ [] in
      let o = priv_run H (codes "systemctl") args s in
      ground (
        arith,
        read-signal_nginx [] s,
        read-after_systemctl o,
        read-priv_run H L path (codes "systemctl") args s refl refl,
      )

  -- The laws that the write pipeline asks of a provider.
  pub nginx-Leaves : (inst : Instance) → Leaves H (nginx H) inst path
  unfolding validate validate_live is_query
  nginx-Leaves inst = record {
    validate = λ b s. ground (arith, read-validate_main b s);
    validate_live = λ s. ground (arith, L.read-query (codes "nginx") (codes "-t" ∷ []) path s refl);
    activate = λ s. read-activate inst path s;
  }

-- A path that is a directory, or has it and a slash in front.
abbrev pub Below : Bytes → Bytes → Type 0
Below base path = (path ≡ base) ⊎ ((rest : Bytes) × (path ≡ base ++ b'/' ∷ rest))

strip_prefix-some : (p s rest : Bytes) → strip_prefix p s ≡ some rest → s ≡ p ++ rest
unfolding strip_prefix
strip_prefix-some [] s rest h = ground (arith, h)
strip_prefix-some (c ∷ p) [] rest h = cc
strip_prefix-some (c ∷ p) (d ∷ s) rest h = elim (Bool-cases (nat_beq c d)) [
  | inl e ↦ ground (arith, e, h, strip_prefix-some p s rest (ground (arith, e, h)))
  | inr e ↦ absurd (ground (arith, e, h))
]

has_prefix-splits : (p s : Bytes) → has_prefix p s ≡ true → (rest : Bytes) × (s ≡ p ++ rest)
unfolding has_prefix
has_prefix-splits p s h = elim (Option-cases (strip_prefix p s)) [
  | inl e ↦ absurd (ground (arith, e, h))
  | inr (rest, e) ↦ (rest, strip_prefix-some p s rest e)
]

is_under-Below : (base path : Bytes) → is_under base path ≡ true → Below base path
unfolding is_under
is_under-Below base path h = elim (Bool-cases (path == base)) [
  | inl e ↦ inl ((==_iff path base).0 e)
  | inr e ↦
      let (rest, split) = has_prefix-splits (base ++ b'/' ∷ []) path (ground (arith, e, h)) in
      inr (rest, split ∙ append_assoc base (b'/' ∷ []) rest)
]

not_under : (base path : Bytes) → ¬ (Below base path) → is_under base path ≡ false
not_under base path n = elim (Bool-cases (is_under base path)) [
  | inl e ↦ absurd (n (is_under-Below base path e))
  | inr e ↦ e
]

-- No directory of the list is that of the path, once both are cleaned.
abbrev pub Outside : List Bytes → Bytes → Type 0
Outside bases path = All (λ base. ¬ (Below (clean base) (clean path))) bases

under_any-Outside :
    (bases : List Bytes) (path : Bytes)
    → All (λ base. ¬ (Below (clean base) path)) bases
    → under_any bases path ≡ false
unfolding under_any
under_any-Outside [] path h = refl
under_any-Outside (base ∷ bases) path h =
    rw (not_under (clean base) path h.0) (under_any-Outside bases path h.1)

owns-Outside :
    (inst : Instance) (path : Bytes) → Outside inst.config_paths path → owns inst path ≡ false
unfolding owns
owns-Outside inst path h = under_any-Outside inst.config_paths (clean path) h

-- A write command for a file that, with the dots of its path resolved, is neither a configuration path
-- of the instance nor below one does nothing at all: no success is reported, and the machine is as
-- before.
pub confined :
    (H : Host) (inst : Instance) (cmd : Command) (s : H.State)
    → Outside inst.config_paths cmd.ref
    → let r = apply_config H (nginx H) inst cmd s in (is_success r.0.status ≡ false) × (r.1 ≡ s)
unfolding validate
confined H inst cmd s away =
    apply_config-refused H (nginx H) inst cmd s (outside cmd.ref) refused_here refl
  where
    refused_here : validate H inst cmd.ref cmd.content s ≡ (outside cmd.ref, s)
    refused_here = rw (owns-Outside inst cmd.ref away) refl

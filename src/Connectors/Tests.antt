-- ===== src/Connectors/Tests.antt =====
-- Runs of the model of agent/internal/connectors, and its theorems at concrete inputs.
use cron_compose.Prelude.{
  Bool, ap, nat_eq, ◌==◌, ◌≡◌, ◌↔◌, refl, ◌⊎◌, inl, inr, true, false, [], ◌∷◌, none, some, Bytes,
  bytes_eq,
}
use cron_compose.Prelude.Text.{codes}
use cron_compose.Prelude.Paths.{clean}
use cron_compose.Prelude.Strings.{split}
use cron_compose.Users.{Process, unknown}
use cron_compose.Connectors.Memory.{Machine, main_file, broken, machine, machine-IsLawful, is_temp}
use cron_compose.Connectors.Command.{Command, is_success, Instance, valid_action}
use cron_compose.Connectors.Files.{write_file_atomic}
use cron_compose.Connectors.Files.Outcome.{Wrote, write_file_atomic-Wrote}
use cron_compose.Connectors.Apply.{apply_config}
use cron_compose.Connectors.Apply.Outcome.{Applies, apply_config-Applies}
use cron_compose.Connectors.Braces.{balanced_braces, plain}
use cron_compose.Connectors.Braces.Balance.{braces, ends_quoted, Nests, balanced_braces_lem}
use cron_compose.Connectors.Nginx.{nginx}
use cron_compose.Connectors.Nginx.Owned.{nginx-Leaves, Outside, Below, confined}
use cron_compose.Connectors.Direct.{shell_join, Shell}
use cron_compose.Connectors.Direct.Quoting.{shell_words, outside, shell_words-shell_join}
use cron_compose.Connectors.Execute.{Provider, execute, resolve}
use cron_compose.Connectors.Execute.Gates.{unknown_action}

abbrev web : Instance
web = record {
  kind = codes "nginx";
  instance_name = [];
  config_paths = codes "/etc/nginx" ∷ [];
  caps = record { can_lifecycle = true; can_edit = true };
  config_prefix = codes "/etc/nginx";
}

abbrev edit : Bytes → Bytes → Command
edit path text = record {
  op = codes "apply";
  kind = codes "nginx";
  instance_name = [];
  ref = path;
  action = [];
  content = text;
  base_checksum = [];
  dry_run = false;
}

abbrev at_work : Machine
at_work = record { files = (main_file, codes "events {}") ∷ []; next = 0 }

abbrev brings_down : Command
brings_down = edit main_file broken

main_named : is_temp main_file ≡ false
unfolding is_temp
main_named = refl

write_file_atomic-Wrote_example :
    Wrote machine main_file broken at_work (write_file_atomic machine main_file broken at_work)
write_file_atomic-Wrote_example =
    write_file_atomic-Wrote machine machine-IsLawful main_file main_named broken at_work

apply_config-Applies_example :
    Applies machine
      (nginx machine)
      web
      brings_down
      at_work
      (apply_config machine (nginx machine) web brings_down at_work)
apply_config-Applies_example =
    apply_config-Applies machine (nginx machine) web brings_down machine-IsLawful
      (nginx-Leaves machine machine-IsLawful main_file main_named web) main_named at_work

abbrev elsewhere : Command
elsewhere = edit (codes "/etc/nginx/../shadow") (codes "root::0:")

abbrev has_n : Bytes → Bool
has_n (a ∷ b ∷ c ∷ d ∷ e ∷ x ∷ s) = x == b'n'
has_n s = false

-- The cleaned path is /etc/shadow, which parts from /etc/nginx at its sixth character.
elsewhere_is_foreign : Outside web.config_paths elsewhere.ref
unfolding clean split
elsewhere_is_foreign = (foreign, tt)
  where
    apart : ¬ (false ≡ true)
    apart e = cc

    foreign : ¬ (Below (codes "/etc/nginx") (codes "/etc/shadow"))
    foreign (inl e) = apart (ap has_n e)
    foreign (inr (rest, e)) = apart (ap has_n e)

confined_example :
    let r = apply_config machine (nginx machine) web elsewhere at_work in
    (is_success r.0.status ≡ false) × (r.1 ≡ at_work)
confined_example = confined machine web elsewhere at_work elsewhere_is_foreign

abbrev fragment : Bytes
fragment = codes "server { # }\n  root '/srv/{a}';\n}"

balanced_braces_lem_example :
    (balanced_braces fragment ≡ none)
    ↔ (ends_quoted plain fragment ≡ false) × Nests 0 (braces plain fragment)
balanced_braces_lem_example = balanced_braces_lem fragment

shell_words-shell_join_example :
    shell_words outside none (shell_join (codes "pm2") (codes "stop" ∷ codes "it's; reboot" ∷ []))
    ≡ some (codes "pm2" ∷ codes "stop" ∷ codes "it's; reboot" ∷ [])
shell_words-shell_join_example =
    shell_words-shell_join (codes "pm2") (codes "stop" ∷ codes "it's; reboot" ∷ [])

abbrev nobody : Process
nobody = record { lookup = λ n. unknown; uid = 1000; is_root = false; login_shell = λ n. [] }

abbrev bash : Shell machine
bash c script s = (([], none), s)

abbrev nginx_provider : Provider machine
nginx_provider = record {
  kind = codes "nginx";
  detect = λ s. (web ∷ [], s);
  count_resources = λ i s. (1, s);
  inspector = none;
  port_lister = none;
  actor = none;
  log_reader = none;
  config_manager = some (nginx machine);
}

abbrev exec_stop : Command
exec_stop = record (edit (codes "nginx") []) { op = codes "lifecycle"; action = codes "kill -9" }

kill_is_unknown : valid_action (codes "kill -9") ≡ false
unfolding valid_action
kill_is_unknown = refl

unknown_action_example :
    let r = execute machine nobody bash (nginx_provider ∷ []) exec_stop at_work in
    (is_success r.0.status ≡ false)
    × ((r.1 ≡ at_work)
        ⊎ (r.1 ≡ (resolve machine (nginx_provider ∷ []) (codes "nginx") [] at_work).1))
unknown_action_example =
    unknown_action machine nobody bash (nginx_provider ∷ []) exec_stop at_work refl kill_is_unknown

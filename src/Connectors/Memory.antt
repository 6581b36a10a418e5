-- ===== src/Connectors/Memory.antt =====
-- A machine in memory, for runs of the model of agent/internal/connectors.
use cron_compose.Prelude.{
  ℕ, ◌+◌, ◌≡◌, ◌≢◌, refl, ap, Bool, true, false, ◌||◌, List, [], ◌∷◌, Option, none, some, Bytes,
  nat_eq, bytes_eq, ◌==◌, ==_iff, if◌then◌else◌, arith, nat_beq,
}
use cron_compose.Prelude.Text.{codes}
use cron_compose.Prelude.Map.{get, put, del, get-put, get-del}
use cron_compose.Connectors.Host.{
  Host, IsLawful, Read, missing, content, Made, made, Removed, removed, absent,
}

-- `broken` is a content that `nginx -t` refuses in the main file.
pub record Machine : Type 0 where
  pub files : List (Bytes × Bytes)
  pub next : ℕ

abbrev pub main_file : Bytes
main_file = codes "/etc/nginx/nginx.conf"

abbrev pub broken : Bytes
broken = codes "server {"

abbrev found : Option Bytes → Read
found none = missing
found (some b) = content b

unfoldable pub temp_name : ℕ → Bytes
temp_name n = b'T' ∷ n ∷ []

unfoldable pub is_temp : Bytes → Bool
is_temp [] = false
is_temp (c ∷ s) = nat_beq c b'T'

unfoldable pub create_temp : Bytes → Bytes → Machine → Made × Machine
create_temp d pat s = (
  made (temp_name s.next),
  record s { files = put (temp_name s.next) [] s.files; next = s.next + 1 },
)

unfoldable pub write : Bytes → Bytes → Machine → Option Bytes × Machine
write t b s = (none, record s { files = put t b s.files })

abbrev renamed : Bytes → Bytes → Machine → Option Bytes → Option Bytes × Machine
renamed t p s none = (some (codes "no such file"), s)
renamed t p s (some b) = (none, record s { files = put p b (del t s.files) })

unfoldable pub rename : Bytes → Bytes → Machine → Option Bytes × Machine
rename t p s = renamed t p s (get t s.files)

abbrev swept : Bytes → Machine → Option Bytes → Removed × Machine
swept t s none = (absent, s)
swept t s (some _) = (removed, record s { files = del t s.files })

unfoldable pub remove : Bytes → Machine → Removed × Machine
remove t s = swept t s (get t s.files)

abbrev is_broken : Option Bytes → Bool
is_broken none = false
is_broken (some b) = b == broken

-- The machine has no sudo, and what copies files fails.
unfoldable pub exec : Bytes → List Bytes → Machine → (Bytes × Option Bytes) × Machine
exec bin args s =
    if bin == codes "install" || bin == codes "mv" || bin == codes "sudo"
    then ((codes "not here", some (codes "exit status 1")), s)
    else (if bin == codes "nginx"
        then (
          (
            codes "nginx",
            if is_broken (get main_file s.files) then some (codes "exit status 1") else none,
          ),
          s,
        )
        else ((codes "active", none), s))

abbrev pub read_file : Bytes → Machine → Read
read_file p s = found (get p s.files)

abbrev kept : Bytes → Machine → Option Bytes × Machine
kept t s = (none, s)

abbrev pub machine : Host
machine = record {
  State = Machine;
  read = read_file;
  mode = λ p s. none;
  open_write = λ p s. true;
  is_dir = λ p s. true;
  create_temp = create_temp;
  write = write;
  sync = kept;
  close = kept;
  chmod = λ t m s. (none, s);
  rename = rename;
  remove = remove;
  is_root = λ s. true;
  look_path = λ bin s. some bin;
  exec = exec;
  pause = λ s. (true, s);
  digest = λ b. b;
  may_be_temp = is_temp;
}

temp_apart : (n : ℕ) (p : Bytes) → is_temp p ≡ false → (temp_name n == p) ≡ false
unfolding temp_name is_temp
temp_apart n [] h = refl
temp_apart n (c ∷ p) h = ground (arith, h)

new_is_temp : (d pat t : Bytes) (s : Machine) → (create_temp d pat s).0 ≡ made t → is_temp t ≡ true
unfolding create_temp temp_name is_temp
new_is_temp d pat [] s h = ground (arith, h)
new_is_temp d pat (c ∷ t) s h = ground (arith, h)

new_is_empty :
    (d pat t : Bytes) (s : Machine)
    → (create_temp d pat s).0 ≡ made t
    → read_file t (create_temp d pat s).1 ≡ content []
unfolding create_temp
new_is_empty d pat t s h =
    ground (arith, h, get-put (temp_name s.next) t [] s.files, ==_iff (temp_name s.next) t)

read-create_temp :
    (d pat p : Bytes) (s : Machine)
    → is_temp p ≡ false
    → read_file p (create_temp d pat s).1 ≡ read_file p s
unfolding create_temp
read-create_temp d pat p s h =
    ground (arith, temp_apart s.next p h, get-put (temp_name s.next) p [] s.files)

read-write :
    (t b : Bytes) (s : Machine)
    → read_file t s ≡ content []
    → (write t b s).0 ≡ none
    → read_file t (write t b s).1 ≡ content b
unfolding write
read-write t b s h n = ground (arith, get-put t t b s.files, ==_iff t t)

read-write_other :
    (t p b : Bytes) (s : Machine) → (t == p) ≡ false → read_file p (write t b s).1 ≡ read_file p s
unfolding write
read-write_other t p b s h = ground (arith, h, get-put t p b s.files)

read-rename :
    (t p : Bytes) (s : Machine)
    → (rename t p s).0 ≡ none
    → read_file p (rename t p s).1 ≡ read_file t s
unfolding rename
read-rename t p s = by_source (get t s.files) refl
  where
    by_source :
        (o : Option Bytes)
        → get t s.files ≡ o
        → (renamed t p s o).0 ≡ none
        → read_file p (renamed t p s o).1 ≡ found o
    by_source none h n = ground (arith, n)
    by_source (some b) h n = ground (arith, get-put p p b (del t s.files), ==_iff p p)

read-rename_failed :
    (t p q : Bytes) (s : Machine)
    → (rename t p s).0 ≢ none
    → read_file q (rename t p s).1 ≡ read_file q s
unfolding rename
read-rename_failed t p q s = by_source (get t s.files)
  where
    by_source :
        (o : Option Bytes)
        → (renamed t p s o).0 ≢ none
        → read_file q (renamed t p s o).1 ≡ read_file q s
    by_source none n = refl
    by_source (some b) n = ground (arith, n)

read-remove :
    (p : Bytes) (s : Machine) → (remove p s).0 ≡ removed → read_file p (remove p s).1 ≡ missing
unfolding remove
read-remove p s = by_file (get p s.files)
  where
    by_file : (o : Option Bytes) → (swept p s o).0 ≡ removed → read_file p (swept p s o).1 ≡ missing
    by_file none n = ground (arith, n)
    by_file (some b) n = ground (arith, get-del p p s.files, ==_iff p p)

read-remove_absent :
    (p : Bytes) (s : Machine) → (remove p s).0 ≡ absent → read_file p (remove p s).1 ≡ missing
unfolding remove
read-remove_absent p s = by_file (get p s.files) refl
  where
    by_file :
        (o : Option Bytes)
        → get p s.files ≡ o
        → (swept p s o).0 ≡ absent
        → read_file p (swept p s o).1 ≡ missing
    by_file none h n = ground (arith, h)
    by_file (some b) h n = ground (arith, n)

read-remove_other :
    (t p : Bytes) (s : Machine) → (t == p) ≡ false → read_file p (remove t s).1 ≡ read_file p s
unfolding remove
read-remove_other t p s h = ground (arith, h, get-del t p s.files)

exec_keeps : (bin : Bytes) (args : List Bytes) (s : Machine) → (exec bin args s).1 ≡ s
unfolding exec
exec_keeps bin args s = ground arith

exec_fails :
    (bin : Bytes) (args : List Bytes) (s : Machine)
    → (bin == codes "install" || bin == codes "mv" || bin == codes "sudo") ≡ true
    → (exec bin args s).0.1 ≢ none
unfolding exec
exec_fails bin args s h = rw h (λ n. ground (arith, n))

pub machine-IsLawful : IsLawful machine
machine-IsLawful = record {
  new_is_temp = new_is_temp;
  new_is_empty = new_is_empty;
  read-create_temp = read-create_temp;
  read-write = read-write;
  read-write_other = read-write_other;
  read-sync = λ t p s. refl;
  read-close = λ t p s. refl;
  read-chmod = λ t p m s. refl;
  read-rename = read-rename;
  read-rename_failed = read-rename_failed;
  read-remove = read-remove;
  read-remove_absent = read-remove_absent;
  read-remove_other = read-remove_other;
  read-install = λ m t p s n. absurd (exec_fails (codes "install") _ s refl n);
  read-sudo_install = λ m t p s n. absurd (exec_fails (codes "sudo") _ s refl n);
  read-mv = λ p q s n. absurd (exec_fails (codes "mv") _ s refl n);
  read-sudo_mv = λ p q s n. absurd (exec_fails (codes "sudo") _ s refl n);
  read-query = λ bin args p s _. ap (read_file p) (exec_keeps bin args s);
  read-pause = λ p s. refl;
}

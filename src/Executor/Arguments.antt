-- ===== src/Executor/Arguments.antt =====
-- What the arguments of agent/internal/executor/command.go make the host run.
use cron_compose.Prelude.{
  bytes_eq, ◌==◌, ◌≡◌, refl, sym, ap, append_assoc, append-nil, Bool-cases, inl, inr, if◌then◌else◌,
  ◌∙◌, true, false, List, [], ◌∷◌, ◌++◌, some, arith, Bytes, All, All-append,
}
use cron_compose.Prelude.Int.{ℤ, is_positive, pos_part}
use cron_compose.Prelude.Text.{codes, decimal}
use cron_compose.Executor.Command.{
  Job, Credential, limited, property, separator, systemd_run, systemd_flags, script_args,
  build_command, user_flags, insert_before_separator, with_user,
}

abbrev IsFlag : Bytes → Type 0
IsFlag a = (a == separator) ≡ false

insert_before_separator-append :
    (inject flags rest : List Bytes)
    → All IsFlag flags
    → insert_before_separator inject (flags ++ separator ∷ rest)
      ≡ flags ++ (inject ++ separator ∷ rest)
unfolding insert_before_separator
insert_before_separator-append inject [] rest h = refl
insert_before_separator-append inject (f ∷ flags) rest h =
    ground (arith, insert_before_separator-append inject flags rest h.1)

-- The name of a property does not start with a dash.
abbrev Named : Bytes → Type 0
Named name = (n : ℤ) (unit : Bytes) → All IsFlag (property name n unit)

cpu-Named : Named (codes "CPUQuota")
cpu-Named n unit = ground arith

memory-Named : Named (codes "MemoryMax")
memory-Named n unit = ground arith

tasks-Named : Named (codes "TasksMax")
tasks-Named n unit = ground arith

io-Named : Named (codes "IOWeight")
io-Named n unit = ground arith

property-IsFlag :
    (name : Bytes) (n : ℤ) (unit : Bytes) (rest : List Bytes)
    → Named name
    → All IsFlag rest
    → All IsFlag (property name n unit ++ rest)
property-IsFlag name n unit rest h k = All-append IsFlag (property name n unit) rest (h n unit) k

systemd_flags-IsFlag : (j : Job) → All IsFlag (systemd_flags j)
unfolding systemd_flags
systemd_flags-IsFlag j = (
  refl,
  (
    refl,
    (
      refl,
      property-IsFlag (codes "CPUQuota") j.cpu_quota_percent (codes "%") _ cpu-Named (
          property-IsFlag (codes "MemoryMax") j.memory_max_mb (codes "M") _ memory-Named (
            property-IsFlag (codes "TasksMax") j.tasks_max [] _ tasks-Named
              (io-Named j.io_weight []))),
    ),
  ),
)

-- The limits of a job, with the properties of a systemd scope that they are, and their units.
abbrev pub limits_of : Job → List (Bytes × (ℤ × Bytes))
limits_of j =
    (codes "CPUQuota", (j.cpu_quota_percent, codes "%"))
    ∷ (codes "MemoryMax", (j.memory_max_mb, codes "M"))
    ∷ (codes "TasksMax", (j.tasks_max, []))
    ∷ (codes "IOWeight", (j.io_weight, []))
    ∷ []

-- The options that ask for the positive ones among some limits.
unfoldable pub asking : List (Bytes × (ℤ × Bytes)) → List Bytes
asking [] = []
asking ((name, (n, unit)) ∷ limits) =
    let rest = asking limits in
    if is_positive n
    then codes "-p" ∷ (name ++ (b'=' ∷ (decimal (pos_part n) ++ unit))) ∷ rest
    else rest

property-asking :
    (name : Bytes) (n : ℤ) (unit : Bytes) (rest : List Bytes) (limits : List (Bytes × (ℤ × Bytes)))
    → rest ≡ asking limits
    → property name n unit ++ rest ≡ asking ((name, (n, unit)) ∷ limits)
unfolding asking
property-asking name n unit rest limits h = elim (Bool-cases (is_positive n)) [
  | inl e ↦ rw (e, h) refl
  | inr e ↦ rw (e, h) refl
]

abbrev pub scope : List Bytes
scope = codes "--quiet" ∷ codes "--scope" ∷ codes "--collect" ∷ []

systemd_flags-asking : (j : Job) → systemd_flags j ≡ scope ++ asking (limits_of j)
unfolding systemd_flags asking
systemd_flags-asking j =
    let io = (codes "IOWeight", (j.io_weight, [])) ∷ [] in
    let tasks = (codes "TasksMax", (j.tasks_max, [])) ∷ io in
    let memory = (codes "MemoryMax", (j.memory_max_mb, codes "M")) ∷ tasks in
    ap (λ flags. scope ++ flags)
      (property-asking (codes "CPUQuota") j.cpu_quota_percent (codes "%") _ memory (
        property-asking (codes "MemoryMax") j.memory_max_mb (codes "M") _ tasks (
          property-asking (codes "TasksMax") j.tasks_max [] _ io (
            sym (append-nil (property (codes "IOWeight") j.io_weight []))
            ∙ property-asking (codes "IOWeight") j.io_weight [] [] [] refl))))

limited_command :
    (interp : Bytes) (j : Job)
    → limited j ≡ true
    → build_command true interp j
      ≡ (systemd_run, systemd_flags j ++ (separator ∷ interp ∷ script_args j))
limited_command interp j h = unfold build_command in rw h

with_user_scope :
    (args : List Bytes) (cred : Credential)
    → with_user systemd_run args (some cred) ≡ insert_before_separator (user_flags cred) args
with_user_scope args cred = unfold with_user in refl

-- Where systemd is usable, a limited job with a user runs under systemd-run, its interpreter on its
-- script inside a scope: in front of the separator stand each of the four limits that is set, with its
-- value, and the flags of the user, and behind it stand the interpreter and the script, whatever bytes
-- these hold.
pub with_user-build_command :
    (interp : Bytes) (j : Job) (cred : Credential)
    → limited j ≡ true
    → let (prog, args) = build_command true interp j in
      (prog ≡ systemd_run)
      × (with_user prog args (some cred)
          ≡ scope
            ++ (asking (limits_of j) ++ (user_flags cred ++ (separator ∷ interp ∷ script_args j))))
with_user-build_command interp j cred h = rw (limited_command interp j h) (
  refl,
  with_user_scope _ cred
      ∙ (insert_before_separator-append (user_flags cred) (systemd_flags j) (interp ∷ script_args j)
            (systemd_flags-IsFlag j)
          ∙ (ap (λ flags. flags ++ (user_flags cred ++ (separator ∷ interp ∷ script_args j)))
                (systemd_flags-asking j)
              ∙ append_assoc scope (asking (limits_of j))
                  (user_flags cred ++ (separator ∷ interp ∷ script_args j)))),
)

-- ===== src/Store/Encoding.antt =====
-- Encodings of the empty job set, that of one job, and small histories, for runs of the model.
use Prim.Native.String.{String}
use cron_compose.Prelude.{
  ℕ, zero, suc, nat_eq, string_eq, bytes_eq, ◌==◌, ==_iff, ◌≡◌, refl, Bool, true, false, ◌&&◌, List,
  [], ◌∷◌, Option, none, some, Bytes, if◌then◌else◌, arith,
}
use cron_compose.Prelude.Int.{ℤ, pos, negsuc}
use cron_compose.Prelude.Map.{get}
use cron_compose.Store.Files.{Codec, StateCodec}
use cron_compose.Store.{JobDef}

-- A job of which only the id, the expression and the timezone are set.
abbrev pub bare : String → String → String → Bool → JobDef
bare id cron tz on = record {
  id = id;
  version_id = "";
  name = "";
  interpreter = [];
  script_body = [];
  schedule_cron = cron;
  timezone = tz;
  enabled = on;
  timeout_seconds = pos 0;
  concurrency_policy = "";
  catchup_policy = "";
  max_retries = pos 0;
  working_dir = [];
  run_as_user = [];
  env = [];
  secrets = [];
  cpu_quota_percent = pos 0;
  memory_max_mb = pos 0;
  tasks_max = pos 0;
  io_weight = pos 0;
}

abbrev pub nightly : JobDef
nightly = bare "a" "0 3 * * *" "UTC" true

is_zero : ℤ → Bool
is_zero (pos zero) = true
is_zero _ = false

is_empty : {A : Type 0} → List A → Bool
is_empty [] = true
is_empty _ = false

texts : JobDef → Bool
texts j =
    (j.id == "a")
    && (j.version_id == "")
    && (j.name == "")
    && (j.schedule_cron == "0 3 * * *")
    && (j.timezone == "UTC")
    && (j.concurrency_policy == "")
    && (j.catchup_policy == "")
    && j.enabled

numbers : JobDef → Bool
unfolding is_zero
numbers j =
    is_zero j.timeout_seconds
    && is_zero j.max_retries
    && is_zero j.cpu_quota_percent
    && is_zero j.memory_max_mb
    && is_zero j.tasks_max
    && is_zero j.io_weight

lists : JobDef → Bool
unfolding is_empty
lists j =
    is_empty j.interpreter
    && is_empty j.script_body
    && is_empty j.working_dir
    && is_empty j.run_as_user
    && is_empty j.env
    && is_empty j.secrets

is_nightly : JobDef → Bool
unfolding texts numbers lists
is_nightly j = texts j && (numbers j && lists j)

is_zero_lem : (z : ℤ) → is_zero z ≡ true → z ≡ pos 0
unfolding is_zero
is_zero_lem (pos zero) h = refl
is_zero_lem (pos (suc n)) h = ground (arith, h)
is_zero_lem (negsuc n) h = ground (arith, h)

is_empty_lem : {A : Type 0} (xs : List A) → is_empty xs ≡ true → xs ≡ []
unfolding is_empty
is_empty_lem [] h = refl
is_empty_lem (x ∷ xs) h = ground (arith, h)

texts_lem :
    (j : JobDef)
    → texts j ≡ true
    → (j.id ≡ "a")
      × (j.version_id ≡ "")
      × (j.name ≡ "")
      × (j.schedule_cron ≡ "0 3 * * *")
      × (j.timezone ≡ "UTC")
      × (j.concurrency_policy ≡ "")
      × (j.catchup_policy ≡ "")
      × (j.enabled ≡ true)
unfolding texts
texts_lem j h = ground (
  arith,
  h,
  ==_iff j.id "a",
  ==_iff j.version_id "",
  ==_iff j.name "",
  ==_iff j.schedule_cron "0 3 * * *",
  ==_iff j.timezone "UTC",
  ==_iff j.concurrency_policy "",
  ==_iff j.catchup_policy "",
)

is_nightly_lem : (j : JobDef) → is_nightly j ≡ true → j ≡ nightly
unfolding is_nightly numbers lists
is_nightly_lem j h =
    let t = texts_lem j (ground (arith, h)) in
    λ i. record {
      id = t.0 i;
      version_id = t.1 i;
      name = t.2 i;
      interpreter = is_empty_lem j.interpreter (ground (arith, h)) i;
      script_body = is_empty_lem j.script_body (ground (arith, h)) i;
      schedule_cron = t.3 i;
      timezone = t.4 i;
      enabled = t.7 i;
      timeout_seconds = is_zero_lem j.timeout_seconds (ground (arith, h)) i;
      concurrency_policy = t.5 i;
      catchup_policy = t.6 i;
      max_retries = is_zero_lem j.max_retries (ground (arith, h)) i;
      working_dir = is_empty_lem j.working_dir (ground (arith, h)) i;
      run_as_user = is_empty_lem j.run_as_user (ground (arith, h)) i;
      env = is_empty_lem j.env (ground (arith, h)) i;
      secrets = is_empty_lem j.secrets (ground (arith, h)) i;
      cpu_quota_percent = is_zero_lem j.cpu_quota_percent (ground (arith, h)) i;
      memory_max_mb = is_zero_lem j.memory_max_mb (ground (arith, h)) i;
      tasks_max = is_zero_lem j.tasks_max (ground (arith, h)) i;
      io_weight = is_zero_lem j.io_weight (ground (arith, h)) i;
    }

-- An encoding of the empty list and of the list of that job, and of nothing else.
unfoldable pub encode : List JobDef → Option Bytes
unfolding is_nightly texts numbers lists is_zero is_empty
encode [] = some (0 ∷ [])
encode (j ∷ []) = if is_nightly j then some (1 ∷ []) else none
encode (j ∷ j' ∷ js) = none

unfoldable pub decode : Bytes → Option (List JobDef)
decode (zero ∷ []) = some []
decode (suc zero ∷ []) = some (nightly ∷ [])
decode _ = none

pub decode-encode : (jobs : List JobDef) (b : Bytes) → encode jobs ≡ some b → decode b ≡ some jobs
unfolding encode decode
decode-encode [] b h = ground (arith, h)
decode-encode (j ∷ []) b h = by_test (is_nightly j) refl h
  where
    by_test :
        (t : Bool)
        → is_nightly j ≡ t
        → (if t then some (1 ∷ []) else none) ≡ some b
        → decode b ≡ some (j ∷ [])
    by_test true e h = ground (arith, h, e, is_nightly_lem j e)
    by_test false e h = ground (arith, h)
decode-encode (j ∷ j' ∷ js) b h = ground (arith, h)

abbrev pub json : Codec (List JobDef)
json = record { encode = λ js. encode js; decode = λ b. decode b; decode-encode = decode-encode }

-- An encoding of the histories that are empty or have one entry for the job "a".
unfoldable pub encode_states : List (String × ℕ) → Option Bytes
encode_states [] = some []
encode_states ((k, n) ∷ []) = if k == "a" then some (n ∷ []) else none
encode_states (e ∷ e' ∷ es) = none

unfoldable pub decode_states : Bytes → Option (List (String × ℕ))
decode_states [] = some []
decode_states (n ∷ []) = some (("a", n) ∷ [])
decode_states _ = none

pub decode-encode_states :
    (m : List (String × ℕ)) (b : Bytes)
    → encode_states m ≡ some b
    → (m' : List (String × ℕ)) × (decode_states b ≡ some m') × ((k : String) → get k m' ≡ get k m)
unfolding encode_states decode_states
decode-encode_states [] b h = ([], ground (arith, h), λ k. refl)
decode-encode_states ((k, n) ∷ []) b h = ((k, n) ∷ [], ground (arith, h, ==_iff k "a"), λ k'. refl)
decode-encode_states (e ∷ e' ∷ es) b h = absurd (ground (arith, h))

abbrev pub json_states : StateCodec
json_states = record {
  encode = λ m. encode_states m;
  decode = λ b. decode_states b;
  decode-encode = decode-encode_states;
}

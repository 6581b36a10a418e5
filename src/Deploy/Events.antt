-- ===== src/Deploy/Events.antt =====
-- The events of one deploy run, agent/internal/deploy/runner.go: `emit`, `overLogCap`, `phaseLine` and
-- `fail`. A feed is what the manager keeps for the run, with the events that it has handed to the
-- sender. The counters of a run that has ended are gone, which `none` says.
pub mod Secrets
pub mod Capped
pub mod Over
use cron_compose.Prelude.{
  ℕ, zero, suc, ◌+◌, ◌%◌, ◌^◌, Bool, true, false, not, ◌||◌, ◌&&◌, List, [], ◌∷◌, ◌++◌, length,
  Option, none, some, Bytes, nat_eq, bytes_eq, ◌==◌, if◌then◌else◌, leb,
}
use cron_compose.Prelude.Text.{codes}
use cron_compose.Deploy.Redact.{redact, starts_with}
use cron_compose.Deploy.Scrub.{scrub_log, trim_bytes}

pub data Kind : Type 0 where
  started log finished : Kind

pub record Event : Type 0 where
  pub kind : Kind
  pub phase : Bytes
  pub status : Bytes
  pub message : Bytes
  pub payload : Bytes
  pub commit_sha : Bytes
  pub seq : ℕ

pub record Feed : Type 0 where
  pub seq : Option ℕ
  pub logged : Option ℕ
  pub cap_noted : Bool
  pub sent : List Event

unfoldable pub log_cap_bytes : ℕ
log_cap_bytes = 33554432

abbrev pub is_log : Kind → Bool
is_log log = true
is_log started = false
is_log finished = false

abbrev pub log_event : Bytes → Bytes → Event
log_event phase payload = record {
  kind = log;
  phase = phase;
  status = [];
  message = [];
  payload = payload;
  commit_sha = [];
  seq = 0;
}

-- `humanBytes` of the cap is 32.0MB.
unfoldable pub notice : Event
notice =
    log_event (codes "install")
      (10 ∷ codes "[log truncated: this run passed 32.0MB of output]" ++ 10 ∷ [])

-- The notice goes out once, without a number.
abbrev pub noted : Bool → List Event → List Event
noted true sent = sent
noted false sent = sent ++ notice ∷ []

-- The feed with the bytes counted, and whether they are too many.
at_count : ℕ → Bool → Feed → Bool × Feed
at_count m true f = (false, record f { logged = some m })
at_count m false f =
    (true, record f { logged = some m; cap_noted = true; sent = noted f.cap_noted f.sent })

count_from : Option ℕ → ℕ → Feed → Bool × Feed
count_from none n f = (false, f)
count_from (some m) n f = at_count (m + n) (leb (m + n) log_cap_bytes) f

-- Whether the run is over its budget with `n` bytes more.
unfoldable pub over_log_cap : ℕ → Feed → Bool × Feed
unfolding count_from at_count
over_log_cap n f = count_from f.logged n f

-- The event as it is sent, but for its number.
abbrev pub redacted : Bytes → Event → Event
redacted token ev = record ev {
  message = redact ev.message token;
  payload = redact ev.payload token;
}

-- The number of an event that has none yet, and the counter of the run after it.
abbrev pub number : Option ℕ → ℕ → ℕ
number none s = s
number (some n) zero = (n + 1) % 2 ^ 32
number (some n) (suc s) = suc s

abbrev pub next_seq : Option ℕ → ℕ → Option ℕ
next_seq none s = none
next_seq (some n) zero = some ((n + 1) % 2 ^ 32)
next_seq (some n) (suc s) = some n

unfoldable pub send_numbered : Bytes → Event → Feed → Feed
send_numbered token ev f = record f {
  seq = next_seq f.seq ev.seq;
  sent = f.sent ++ record (redacted token ev) { seq = number f.seq ev.seq } ∷ [];
}

unless_over : Bytes → Event → Bool × Feed → Feed
unless_over token ev (true, f) = f
unless_over token ev (false, f) = send_numbered token ev f

unfoldable pub emit_scrubbed : Bytes → Event → Bytes → Feed → Feed
unfolding unless_over
emit_scrubbed token ev [] f = f
emit_scrubbed token ev (c ∷ s) f =
    unless_over token (record ev { payload = c ∷ s }) (over_log_cap (length (c ∷ s)) f)

-- Only log events with a payload are scrubbed and counted.
abbrev pub has_log : Event → Bool
has_log ev = is_log ev.kind && not (ev.payload == [])

unfoldable pub emit : Bytes → Event → Feed → Feed
unfolding emit_scrubbed
emit token ev f =
    if has_log ev then emit_scrubbed token ev (scrub_log ev.payload) f else send_numbered token ev f

unfoldable pub emit_all : Bytes → List Event → Feed → Feed
emit_all token [] f = f
emit_all token (ev ∷ evs) f = emit_all token evs (emit token ev f)

-- `phaseLine`, without the timing of the phases.
unfoldable pub phase_line : Bytes → Bytes → Bytes → Feed → Feed
phase_line token phase msg f =
    emit token (log_event phase (phase ++ (codes ": " ++ (msg ++ 10 ∷ [])))) f

-- The message of a failure: never empty, and with its phase in front.
unfoldable pub failure_message : Bytes → Bytes → Bytes
failure_message phase msg =
    let m = if trim_bytes msg == [] then codes "deploy failed" else trim_bytes msg in
    if phase == [] || starts_with (phase ++ b':' ∷ []) m then m else phase ++ (codes ": " ++ m)

unfoldable pub fail_run : Bytes → Bytes → Bytes → Feed → Feed
unfolding failure_message
fail_run token phase msg f =
    let m = failure_message phase msg in
    emit token
      (record {
        kind = finished;
        phase = phase;
        status = codes "failed";
        message = m;
        payload = [];
        commit_sha = [];
        seq = 0;
      })
      (emit token (log_event phase (codes "FAILED " ++ 226 ∷ 128 ∷ 148 ∷ 32 ∷ (m ++ 10 ∷ []))) f)

-- ===== src/Deploy/Events/Secrets.antt =====
-- No event of a deploy run carries the clone token.
use cron_compose.Prelude.{
  ℕ, ◌+◌, ◌≡◌, ◌≢◌, Bool, true, false, List, [], ◌∷◌, ◌++◌, Option, none, some, Bytes, length,
  bytes_eq, nat_eq, if◌then◌else◌, leb, All, All-append,
}
use cron_compose.Prelude.Strings.{any}
use cron_compose.Deploy.Redact.{contains, is_star, contains-redact}
use cron_compose.Deploy.Scrub.{scrub_log}
use cron_compose.Deploy.Events.{
  Event, Feed, notice, noted, number, at_count, count_from, log_cap_bytes, over_log_cap, redacted,
  send_numbered, unless_over, emit_scrubbed, has_log, emit, emit_all,
}

module _ (token : Bytes) where
  -- Neither the message nor the payload has the token in it.
  abbrev pub IsSafe : Event → Type 0
  IsSafe ev = (contains token ev.message ≡ false) × (contains token ev.payload ≡ false)

  module _ (named : token ≢ []) (plain : any is_star token ≡ false)
      (safe_notice : IsSafe notice) where
    append-IsSafe :
        (evs : List Event) (ev : Event) → All IsSafe evs → IsSafe ev → All IsSafe (evs ++ ev ∷ [])
    append-IsSafe evs ev h h' = All-append IsSafe evs (ev ∷ []) h (h', tt)

    redacted-IsSafe : (ev : Event) → IsSafe (redacted token ev)
    redacted-IsSafe ev =
        (contains-redact ev.message token named plain, contains-redact ev.payload token named plain)

    send_numbered-IsSafe :
        (ev : Event) (f : Feed) → All IsSafe f.sent → All IsSafe (send_numbered token ev f).sent
    unfolding send_numbered
    send_numbered-IsSafe ev f h =
        append-IsSafe f.sent (record (redacted token ev) { seq = number f.seq ev.seq }) h
          (redacted-IsSafe ev)

    noted-IsSafe : (b : Bool) (evs : List Event) → All IsSafe evs → All IsSafe (noted b evs)
    noted-IsSafe true evs h = h
    noted-IsSafe false evs h = append-IsSafe evs notice h safe_notice

    counted-IsSafe :
        (ev : Event) (n : ℕ) (f : Feed)
        → All IsSafe f.sent
        → All IsSafe (unless_over token ev (over_log_cap n f)).sent
    unfolding over_log_cap unless_over
    counted-IsSafe ev n f h = by_count f.logged
      where
        by_test : (m : ℕ) (b : Bool) → All IsSafe (unless_over token ev (at_count m b f)).sent
        by_test m true = send_numbered-IsSafe ev (record f { logged = some m }) h
        by_test m false = noted-IsSafe f.cap_noted f.sent h

        by_count : (o : Option ℕ) → All IsSafe (unless_over token ev (count_from o n f)).sent
        by_count none = send_numbered-IsSafe ev f h
        by_count (some m) = by_test (m + n) (leb (m + n) log_cap_bytes)

    emit-IsSafe : (ev : Event) (f : Feed) → All IsSafe f.sent → All IsSafe (emit token ev f).sent
    unfolding emit emit_scrubbed
    emit-IsSafe ev f h = by_payload (has_log ev) (scrub_log ev.payload)
      where
        by_payload :
            (b : Bool) (s : Bytes)
            → All IsSafe (if b then emit_scrubbed token ev s f else send_numbered token ev f).sent
        by_payload true [] = h
        by_payload true (c ∷ s) =
            counted-IsSafe (record ev { payload = c ∷ s }) (length (c ∷ s)) f h
        by_payload false s = send_numbered-IsSafe ev f h

    -- Whatever the run reports, no event that is sent has the token in its message or its payload, if
    -- the token is not empty, has no star, and does not stand in the notice of the cap, and none of
    -- the events sent before has it.
    pub emit_all-IsSafe :
        (evs : List Event) (f : Feed) → All IsSafe f.sent → All IsSafe (emit_all token evs f).sent
    unfolding emit_all
    emit_all-IsSafe [] f h = h
    emit_all-IsSafe (ev ∷ evs) f h = emit_all-IsSafe evs (emit token ev f) (emit-IsSafe ev f h)

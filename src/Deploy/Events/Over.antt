-- ===== src/Deploy/Events/Over.antt =====
-- The events of a deploy run as they are sent, and a run that is over the cap of its log: it sends all
-- but the log.
use cron_compose.Prelude.{
  ℕ, ◌+◌, ◌<◌, ◌≡◌, refl, ap, ◌∙◌, Bool, true, false, List, [], ◌∷◌, ◌++◌, map, append-nil,
  append_assoc, Option, none, some, Bytes, bytes_eq, nat_eq, length, if◌then◌else◌, leb, arith,
}
use mathlib.Core.List.{map-append}
use cron_compose.Deploy.Scrub.{scrub_log}
use cron_compose.Deploy.Events.{
  Event, Feed, noted, log_cap_bytes, at_count, count_from, over_log_cap, redacted, send_numbered,
  unless_over, emit_scrubbed, has_log, emit, emit_all,
}

abbrev pub erased : Event → Event
erased ev = record ev { seq = 0 }

pub zero_right : (m : ℕ) → m + 0 ≡ m
zero_right m = omega arith

module _ (token : Bytes) where
  abbrev pub as_sent : Event → Bytes → List Event
  as_sent ev [] = []
  as_sent ev (c ∷ s) = erased (redacted token (record ev { payload = c ∷ s })) ∷ []

  -- An event without its number: scrubbed, dropped if nothing is left, and redacted.
  unfoldable pub prepared : Event → List Event
  prepared ev =
      if has_log ev then as_sent ev (scrub_log ev.payload) else erased (redacted token ev) ∷ []

  unfoldable pub prepare_all : List Event → List Event
  prepare_all [] = []
  prepare_all (ev ∷ evs) = prepared ev ++ prepare_all evs

  unfoldable pub lifecycle : Event → List Event
  lifecycle ev = if has_log ev then [] else erased (redacted token ev) ∷ []

  -- What is not log.
  unfoldable pub lifecycles : List Event → List Event
  lifecycles [] = []
  lifecycles (ev ∷ evs) = lifecycle ev ++ lifecycles evs

  unfoldable pub size : Event → ℕ
  size ev = if has_log ev then length (scrub_log ev.payload) else 0

  unfoldable pub total : List Event → ℕ
  total [] = 0
  total (ev ∷ evs) = size ev + total evs

  pub sent-send_numbered :
      (ev : Event) (f : Feed)
      → map erased (send_numbered token ev f).sent
        ≡ map erased f.sent ++ erased (redacted token ev) ∷ []
  unfolding send_numbered
  sent-send_numbered ev f = map-append erased f.sent _

  -- The feed of a run that is over its budget and has said so, after `m` bytes.
  pub record Over (old : List Event) (m : ℕ) (f : Feed) : Type 0 where
    pub counted : f.logged ≡ some m
    pub beyond : log_cap_bytes < m
    pub said : f.cap_noted ≡ true
    pub sent : map erased f.sent ≡ old

  -- Sending an event adds it, and leaves the count.
  send_numbered-Over :
      (ev : Event) (old : List Event) (m : ℕ) (f : Feed)
      → Over old m f
      → Over (old ++ erased (redacted token ev) ∷ []) m (send_numbered token ev f)
  unfolding send_numbered
  send_numbered-Over ev old m f h = record {
    counted = h.counted;
    beyond = h.beyond;
    said = h.said;
    sent = sent-send_numbered ev f ∙ ap (λ evs. evs ++ erased (redacted token ev) ∷ []) h.sent;
  }

  noted_lem : (b : Bool) (evs : List Event) → b ≡ true → noted b evs ≡ evs
  noted_lem true evs h = refl
  noted_lem false evs h = cc

  over_log_cap-Over :
      (ev : Event) (n : ℕ) (old : List Event) (m : ℕ) (f : Feed)
      → Over old m f
      → Over old (m + n) (unless_over token ev (over_log_cap n f))
  unfolding over_log_cap unless_over
  over_log_cap-Over ev n old m f h = by_count f.logged h.counted
    where
      by_test :
          (k : ℕ) (b : Bool)
          → k ≡ m + n
          → leb k log_cap_bytes ≡ b
          → Over old (m + n) (unless_over token ev (at_count k b f))
      by_test k true e t = absurd (ground (arith, h.beyond, e, t))
      by_test k false e t = record {
        counted = ap (λ (x : ℕ). some x) e;
        beyond = omega (arith, h.beyond);
        said = refl;
        sent = ap (map erased) (noted_lem f.cap_noted f.sent h.said) ∙ h.sent;
      }

      by_count :
          (o : Option ℕ) → o ≡ some m → Over old (m + n) (unless_over token ev (count_from o n f))
      by_count none e = cc
      by_count (some k) e = by_test (k + n) (leb (k + n) log_cap_bytes) (ground (arith, e)) refl

  emit-Over :
      (ev : Event) (old : List Event) (m : ℕ) (f : Feed)
      → Over old m f
      → Over (old ++ lifecycle ev) (m + size ev) (emit token ev f)
  unfolding emit emit_scrubbed lifecycle size
  emit-Over ev old m f h = by_payload (has_log ev) (scrub_log ev.payload)
    where
      by_payload :
          (b : Bool) (s : Bytes)
          → Over
              (old ++ (if b then [] else erased (redacted token ev) ∷ []))
              (m + (if b then length s else 0))
              (if b then emit_scrubbed token ev s f else send_numbered token ev f)
      by_payload true [] = rw append-nil (rw (zero_right m) h)
      by_payload true (c ∷ s) =
          rw append-nil
            (over_log_cap-Over (record ev { payload = c ∷ s }) (length (c ∷ s)) old m f h)
      by_payload false s = rw (zero_right m) (send_numbered-Over ev old m f h)

  pub emit_all-Over :
      (evs : List Event) (old : List Event) (m : ℕ) (f : Feed)
      → Over old m f
      → map erased (emit_all token evs f).sent ≡ old ++ lifecycles evs
  unfolding emit_all lifecycles
  emit_all-Over [] old m f h = rw append-nil h.sent
  emit_all-Over (ev ∷ evs) old m f h =
      emit_all-Over evs (old ++ lifecycle ev) (m + size ev) (emit token ev f)
        (emit-Over ev old m f h)
      ∙ append_assoc old (lifecycle ev) (lifecycles evs)

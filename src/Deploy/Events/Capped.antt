-- ===== src/Deploy/Events/Capped.antt =====
-- What a deploy run sends of what it reports: everything up to the cap of the log, and from then on
-- all but the log.
use cron_compose.Prelude.{
  ℕ, ◌+◌, ◌≤◌, ◌<◌, ◌≡◌, ◌⊎◌, refl, sym, ap, subst, ◌∙◌, Bool, true, false, List, [], ◌∷◌, ◌++◌,
  map, append-nil, append_assoc, Option, none, some, Bytes, bytes_eq, nat_eq, length, if◌then◌else◌,
  leb, arith, inl, inr,
}
use mathlib.Core.List.{map-append}
use cron_compose.Deploy.Scrub.{scrub_log}
use cron_compose.Deploy.Events.{
  Event, Feed, notice, noted, log_cap_bytes, at_count, count_from, over_log_cap, redacted,
  send_numbered, unless_over, emit_scrubbed, has_log, emit, emit_all,
}
use cron_compose.Deploy.Events.Over.{
  erased, as_sent, prepared, prepare_all, lifecycle, lifecycles, size, total, zero_right,
  sent-send_numbered, Over, emit_all-Over,
}

module _ (token : Bytes) where
  record Under (old : List Event) (m : ℕ) (f : Feed) : Type 0 where
    counted : f.logged ≡ some m
    within : m ≤ log_cap_bytes
    unsaid : f.cap_noted ≡ false
    sent : map erased f.sent ≡ old

  send_numbered-Under :
      (ev : Event) (old : List Event) (m : ℕ) (f : Feed)
      → Under old m f
      → Under (old ++ erased (redacted token ev) ∷ []) m (send_numbered token ev f)
  unfolding send_numbered
  send_numbered-Under ev old m f h = record {
    counted = h.counted;
    within = h.within;
    unsaid = h.unsaid;
    sent =
        sent-send_numbered token ev f ∙ ap (λ evs. evs ++ erased (redacted token ev) ∷ []) h.sent;
  }

  noted_first : (b : Bool) (evs : List Event) → b ≡ false → noted b evs ≡ evs ++ notice ∷ []
  noted_first true evs h = cc
  noted_first false evs h = refl

  -- One log event with `n` bytes: it is sent, or the notice is, and the run is over its budget.
  over_log_cap-Under :
      (ev : Event) (n : ℕ) (old : List Event) (m : ℕ) (f : Feed)
      → Under old m f
      → let f' = unless_over token ev (over_log_cap n f) in
        Under (old ++ erased (redacted token ev) ∷ []) (m + n) f'
        ⊎ Over token (old ++ notice ∷ []) (m + n) f'
  unfolding over_log_cap unless_over notice
  over_log_cap-Under ev n old m f h = by_count f.logged h.counted
    where
      by_test :
          (k : ℕ) (b : Bool)
          → k ≡ m + n
          → leb k log_cap_bytes ≡ b
          → let f' = unless_over token ev (at_count k b f) in
            Under (old ++ erased (redacted token ev) ∷ []) (m + n) f'
            ⊎ Over token (old ++ notice ∷ []) (m + n) f'
      by_test k true e t = inl (
          send_numbered-Under ev old (m + n) (record f { logged = some k })
            (record {
              counted = ap (λ (x : ℕ). some x) e;
              within = ground (arith, e, t);
              unsaid = h.unsaid;
              sent = h.sent;
            }))
      by_test k false e t = inr (record {
        counted = ap (λ (x : ℕ). some x) e;
        beyond = ground (arith, e, t);
        said = refl;
        sent =
            ap (map erased) (noted_first f.cap_noted f.sent h.unsaid)
            ∙ (map-append erased f.sent (notice ∷ []) ∙ ap (λ evs. evs ++ notice ∷ []) h.sent);
      })

      by_count :
          (o : Option ℕ)
          → o ≡ some m
          → let f' = unless_over token ev (count_from o n f) in
            Under (old ++ erased (redacted token ev) ∷ []) (m + n) f'
            ⊎ Over token (old ++ notice ∷ []) (m + n) f'
      by_count none e = cc
      by_count (some k) e = by_test (k + n) (leb (k + n) log_cap_bytes) (ground (arith, e)) refl

  emit-Under :
      (ev : Event) (old : List Event) (m : ℕ) (f : Feed)
      → Under old m f
      → Under (old ++ prepared token ev) (m + size token ev) (emit token ev f)
        ⊎ (Over token (old ++ notice ∷ []) (m + size token ev) (emit token ev f)
            × (lifecycle token ev ≡ []))
  unfolding emit emit_scrubbed prepared size lifecycle
  emit-Under ev old m f h = by_payload (has_log ev) (scrub_log ev.payload)
    where
      by_payload :
          (b : Bool) (s : Bytes)
          → let f' = if b then emit_scrubbed token ev s f else send_numbered token ev f in
            Under
              (old ++ (if b then as_sent token ev s else erased (redacted token ev) ∷ []))
              (m + (if b then length s else 0))
              f'
            ⊎ (Over token (old ++ notice ∷ []) (m + (if b then length s else 0)) f'
                × ((if b then [] else erased (redacted token ev) ∷ []) ≡ []))
      by_payload true [] = inl (rw append-nil (rw (zero_right m) h))
      by_payload true (c ∷ s) =
          elim (over_log_cap-Under (record ev { payload = c ∷ s }) (length (c ∷ s)) old m f h) [
            | inl u ↦ inl u
            | inr o ↦ inr (o, refl)
          ]
      by_payload false s = inl (rw (zero_right m) (send_numbered-Under ev old m f h))

  -- What follows the events that fit: nothing if there is no more, else the notice and what is not log.
  abbrev pub rest_of : List Event → List Event
  rest_of [] = []
  rest_of (ev ∷ evs) = notice ∷ lifecycles token (ev ∷ evs)

  -- The events split at the cap.
  pub record Capped (old : List Event) (m : ℕ) (evs : List Event) (f : Feed) : Type 0 where
    pub before : List Event
    pub after : List Event
    pub split : evs ≡ before ++ after
    pub fits : m + total token before ≤ log_cap_bytes
    pub beyond :
        (ev : Event) (rest : List Event)
        → after ≡ ev ∷ rest
        → log_cap_bytes < m + (total token before + size token ev)
    pub sends : map erased f.sent ≡ old ++ (prepare_all token before ++ rest_of after)

  emit_all-Under :
      (evs : List Event) (old : List Event) (m : ℕ) (f : Feed)
      → Under old m f
      → Capped old m evs (emit_all token evs f)
  unfolding emit_all total prepare_all lifecycles
  emit_all-Under [] old m f h = record {
    before = [];
    after = [];
    split = refl;
    fits = omega (arith, h.within);
    beyond = λ ev rest e. cc;
    sends = h.sent ∙ sym (append-nil old);
  }
  emit_all-Under (ev ∷ evs) old m f h = elim (emit-Under ev old m f h) [
    | inl u ↦
        let r =
          emit_all-Under evs (old ++ prepared token ev) (m + size token ev) (emit token ev f) u in
        record {
          before = ev ∷ r.before;
          after = r.after;
          split = ap (λ xs. ev ∷ xs) r.split;
          fits = omega (arith, r.fits);
          beyond = λ ev' rest e. omega (arith, r.beyond ev' rest e);
          sends =
              r.sends
              ∙ (append_assoc old (prepared token ev)
                    (prepare_all token r.before ++ rest_of r.after)
                  ∙ ap (λ xs. old ++ xs)
                      (sym (
                        append_assoc (prepared token ev) (prepare_all token r.before)
                          (rest_of r.after))));
        }
    | inr (o, none_left) ↦ record {
      before = [];
      after = ev ∷ evs;
      split = refl;
      fits = omega (arith, h.within);
      beyond = λ ev' rest e.
          let same : ev ≡ ev' = cc in
          subst (λ x. log_cap_bytes < m + (0 + size token x)) same (omega (arith, o.beyond));
      sends =
          emit_all-Over token evs (old ++ notice ∷ []) (m + size token ev) (emit token ev f) o
          ∙ (append_assoc old (notice ∷ []) (lifecycles token evs)
              ∙ ap (λ xs. old ++ notice ∷ (xs ++ lifecycles token evs)) (sym none_left));
    }
  ]

-- A run that has sent nothing sends its events in their order, each one scrubbed, without the token and
-- with a number, until the log passes its cap; from there on it sends one notice, and of the events all
-- but the log. The numbers are left out of account.
pub emit_all-Capped :
    (token : Bytes) (evs : List Event) (f : Feed)
    → f.logged ≡ some 0
    → f.cap_noted ≡ false
    → f.sent ≡ []
    → Capped token [] 0 evs (emit_all token evs f)
unfolding log_cap_bytes
emit_all-Capped token evs f counted unsaid empty = emit_all-Under token evs [] 0 f (record {
  counted = counted;
  within = omega arith;
  unsaid = unsaid;
  sent = ap (map erased) empty;
})

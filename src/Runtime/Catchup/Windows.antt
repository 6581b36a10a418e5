-- ===== src/Runtime/Catchup/Windows.antt =====
-- `missedWindows` of agent/internal/runtime/catchup.go.
use Prim.Native.String.{String}
use cron_compose.Prelude.{
  ℕ, zero, suc, ◌≤◌, ◌<◌, string_eq, ◌≡◌, ◌⊎◌, refl, ap, true, List, [], ◌∷◌, some, ltb, length,
  arith, All, Bool-cases, inl, inr,
}
use cron_compose.Store.{JobDef}
use cron_compose.Runtime.Catchup.Schedules.{ScheduleLib}
use cron_compose.Runtime.Catchup.{max_catchup_runs, windows, missed_windows}

module _ (lib : ScheduleLib) where
  open lib use {Schedule, parse, next_after}

  -- The times of a schedule from a cursor on, one after the other.
  abbrev pub Successive : Schedule → String → ℕ → List ℕ → Type 0
  Successive s tz cursor [] = Unit
  Successive s tz cursor (w ∷ ws) = (w ≡ next_after s tz cursor) × Successive s tz w ws

  -- The last of the times, or the cursor.
  abbrev pub final : ℕ → List ℕ → ℕ
  final cursor [] = cursor
  final cursor (w ∷ ws) = final w ws

  -- Each is later than the one before, or the zero time, which stands for no time.
  abbrev pub Ordered : ℕ → List ℕ → Type 0
  Ordered cursor [] = Unit
  Ordered cursor (w ∷ ws) = ((w ≡ 0) ⊎ (cursor < w)) × Ordered w ws

  -- What the library gives from `last` on, up to `now`: as much as there is, or as much as may be.
  pub record Missed (most : ℕ) (s : Schedule) (tz : String) (last now : ℕ) (ws : List ℕ)
      : Type 0 where
    pub at_most : length ws ≤ most
    pub successive : Successive s tz last ws
    pub ordered : Ordered last ws
    pub past : All (λ w. w < now) ws
    pub complete : (length ws ≡ most) ⊎ (now ≤ next_after s tz (final last ws))

  windows-Missed :
      (most : ℕ) (s : Schedule) (tz : String) (last now : ℕ)
      → Missed most s tz last now (windows lib most s tz last now)
  unfolding windows
  windows-Missed zero s tz last now = record {
    at_most = omega arith;
    successive = tt;
    ordered = tt;
    past = tt;
    complete = inl refl;
  }
  windows-Missed (suc most) s tz last now =
      let next = next_after s tz last in
      let r = windows-Missed most s tz next now in
      elim (Bool-cases (ltb next now)) [
        | inl before ↦ rw before (record {
          at_most = omega (arith, r.at_most);
          successive = (refl, r.successive);
          ordered = (lib.next_after_lem s tz last, r.ordered);
          past = (ground (arith, before), r.past);
          complete = ground (arith, r.complete);
        })
        | inr after ↦ rw after (record {
          at_most = omega arith;
          successive = tt;
          ordered = tt;
          past = tt;
          complete = inr (ground (arith, after));
        })
      ]

  -- `missedWindows` on an expression that parses lists what the cron library gives as the next time
  -- after the last fire, as the next one after that, and so on: each is later than the one before, or
  -- the zero time where the schedule has no next one; all are before now; and they are 20, or the next
  -- one would not be before now.
  pub missed_windows-Missed :
      (def : JobDef) (s : Schedule) (last now : ℕ)
      → parse def.schedule_cron ≡ some s
      → Missed max_catchup_runs s def.timezone last now (missed_windows lib def last now)
  unfolding missed_windows
  missed_windows-Missed def s last now e =
      rw (e, missed_windows) (windows-Missed max_catchup_runs s def.timezone last now)

  impossible_windows :
      (most : ℕ) (s : Schedule) (tz : String) (last now : ℕ)
      → ((t : ℕ) → next_after s tz t ≡ 0)
      → 0 < now
      → length (windows lib most s tz last now) ≡ most
  unfolding windows
  impossible_windows zero s tz last now never later = refl
  impossible_windows (suc most) s tz last now never later =
      rw (never last, now_is_later now later)
        (ap (λ n. suc n) (impossible_windows most s tz 0 now never later))
    where
      now_is_later : (now : ℕ) → 0 < now → ltb 0 now ≡ true
      now_is_later now later = ground (arith, later)

  -- A schedule that has no time at all, as that of a February 30, counts as missed 20 times at any
  -- moment after the zero time.
  pub impossible_missed :
      (def : JobDef) (s : Schedule) (last now : ℕ)
      → parse def.schedule_cron ≡ some s
      → ((t : ℕ) → next_after s def.timezone t ≡ 0)
      → 0 < now
      → length (missed_windows lib def last now) ≡ max_catchup_runs
  unfolding missed_windows
  impossible_missed def s last now e never later =
      rw (e, missed_windows)
        (impossible_windows max_catchup_runs s def.timezone last now never later)

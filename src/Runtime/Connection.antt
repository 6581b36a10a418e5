-- ===== src/Runtime/Connection.antt =====
-- agent/internal/runtime/runtime.go: the pauses between connections, in seconds, and the address that is
-- dialed. `transport.HasHost` is an argument.
use Prim.Native.String.{String}
use cron_compose.Prelude.{
  ℕ, ◌*◌, ◌≤◌, Bool, true, false, not, ◌||◌, List, [], ◌∷◌, if◌then◌else◌, ltb, arith, All,
}

abbrev pub new_backoff : ℕ
new_backoff = 1

-- `next`: the pause, and the one after it.
unfoldable pub next_backoff : ℕ → ℕ × ℕ
next_backoff cur = (cur, if ltb 30 (cur * 2) then 30 else cur * 2)

-- The pauses after connections that lasted 30 seconds or not, which starts the backoff again.
unfoldable pub pauses : List Bool → ℕ → List ℕ
unfolding next_backoff
pauses [] cur = []
pauses (lasted ∷ cycles) cur =
    let next = next_backoff (if lasted then new_backoff else cur) in next.0 ∷ pauses cycles next.1

unfoldable pub dial_addr : (String → Bool) → String → Bool → String → String
dial_addr has_host configured explicit enrolled =
    if explicit || not (has_host enrolled) then configured else enrolled

-- A pause is a second at least and 30 seconds at most.
abbrev IsPause : ℕ → Type 0
IsPause s = (1 ≤ s) × (s ≤ 30)

pauses-IsPause : (cycles : List Bool) (cur : ℕ) → IsPause cur → All IsPause (pauses cycles cur)
unfolding pauses next_backoff
pauses-IsPause [] cur h = tt
pauses-IsPause (true ∷ cycles) cur h =
    ((omega arith, omega arith), pauses-IsPause cycles _ (omega arith, omega arith))
pauses-IsPause (false ∷ cycles) cur h = (h, pauses-IsPause cycles _ (ground (arith, h)))

pub backoff-IsPause : (cycles : List Bool) → All IsPause (pauses cycles new_backoff)
backoff-IsPause cycles = pauses-IsPause cycles 1 (omega arith, omega arith)

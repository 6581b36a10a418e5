-- ===== src/Gateway/Registry.antt =====
-- control-plane/internal/agentgw/registry.go: which agents are connected. A `*Conn` is a number, the
-- connections it points to stand in `heap`, and a channel `done` is whether it was closed. To close it
-- twice is a crash. A message is opaque bytes.
pub mod Live
pub mod Add
pub mod Remove
mod Tests
use Prim.Native.String.{String}
use cron_compose.Prelude.{
  ℕ, suc, ◌+◌, nat_eq, string_eq, ◌==◌, Bool, true, false, List, [], ◌∷◌, ◌++◌, Option, none, some,
  if◌then◌else◌, length, ltb, Bytes,
}
use cron_compose.Prelude.Map.{get, put, del, has}

pub record Conn : Type 0 where
  pub server_id : String
  pub out : List Bytes
  pub done : Bool

pub record Registry : Type 0 where
  pub conns : List (String × ℕ)
  pub heap : List (ℕ × Conn)
  pub next : ℕ

abbrev pub empty : Registry
empty = record { conns = []; heap = []; next = 0 }

-- `close(c.done)`, `none` if that panics.
unfoldable pub close_done : ℕ → Registry → Option Registry
close_done c r = elim (get c r.heap) [
  | none ↦ none
  | some conn ↦
      if conn.done
      then none
      else some (record r { heap = put c (record conn { done = true }) r.heap })
]

close_previous : Option ℕ → Registry → Option Registry
unfolding close_done
close_previous none r = some r
close_previous (some prev) r = close_done prev r

register : String → Option Registry → Option (ℕ × Registry)
register server none = none
register server (some r) = some (
  r.next,
  record {
    conns = put server r.next r.conns;
    heap = put r.next (record { server_id = server; out = []; done = false }) r.heap;
    next = suc r.next;
  },
)

unfoldable pub add : String → Registry → Option (ℕ × Registry)
unfolding close_previous register
add server r = register server (close_previous (get server r.conns) r)

dropped : String → Option Registry → Option (Bool × Registry)
dropped server none = none
dropped server (some r) = some (true, r)

remove_current : ℕ → Registry → String → Option ℕ → Option (Bool × Registry)
unfolding dropped
remove_current c r server none = some (false, r)
remove_current c r server (some cur) =
    if cur == c
    then dropped server (close_done c (record r { conns = del server r.conns }))
    else some (false, r)

-- `none` is a crash, or a connection that `Add` did not make.
unfoldable pub remove : ℕ → Registry → Option (Bool × Registry)
unfolding remove_current
remove c r = elim (get c r.heap) [
  | none ↦ none
  | some conn ↦ remove_current c r conn.server_id (get conn.server_id r.conns)
]

unfoldable pub connected : String → Registry → Bool
connected server r = has server r.conns

-- What `Send` comes to at a moment: it queued the message, found the agent offline, or waits for
-- room. Where the stream is closed and there is room, Go chooses either.
pub data Sent : Type 0 where
  queued : Registry → Sent
  offline waits : Sent

send_on : (choose : Bool) → ℕ → Bytes → Registry → Conn → Sent
send_on choose c m r conn =
    let room = ltb (length conn.out) 32 in
    let put_out =
      queued (record r { heap = put c (record conn { out = conn.out ++ (m ∷ []) }) r.heap }) in
    if conn.done
    then (if room then (if choose then put_out else offline) else offline)
    else (if room then put_out else waits)

send_to : Bool → Bytes → Registry → Option ℕ → Sent
unfolding send_on
send_to choose m r none = offline
send_to choose m r (some c) = elim (get c r.heap) [
  | none ↦ offline
  | some conn ↦ send_on choose c m r conn
]

unfoldable pub send : Bool → String → Bytes → Registry → Sent
unfolding send_to
send choose server m r = send_to choose m r (get server r.conns)

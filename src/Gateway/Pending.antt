-- ===== src/Gateway/Pending.antt =====
-- control-plane/internal/agentgw/pending.go: the requests that wait for a result of an agent. A
-- `*PendingSub` is a number, and the mailboxes it points to stand in `heap`; a mailbox has room for one
-- result. Ids and results are opaque bytes.
pub mod First
mod Tests
use cron_compose.Prelude.{
  ℕ, suc, nat_eq, bytes_eq, Bool, true, false, List, [], ◌∷◌, Option, none, some, if◌then◌else◌,
  Bytes, length,
}
use cron_compose.Prelude.Map.{get, put, del}

pub record Sub : Type 0 where
  pub ch : Option Bytes
  pub done : Bool

pub record Pending : Type 0 where
  pub subs : List (Bytes × ℕ)
  pub heap : List (ℕ × Sub)
  pub next : ℕ

abbrev pub new_pending : Pending
new_pending = record { subs = []; heap = []; next = 0 }

-- `Open`.
unfoldable pub open_request : Bytes → Pending → ℕ × Pending
open_request id p = (
  p.next,
  record {
    subs = put id p.next p.subs;
    heap = put p.next (record { ch = none; done = false }) p.heap;
    next = suc p.next;
  },
)

-- `close(sub.done)`, `none` if that panics.
close_done : ℕ → Pending → Option Pending
close_done c p = elim (get c p.heap) [
  | none ↦ none
  | some sub ↦
      if sub.done
      then none
      else some (record p { heap = put c (record sub { done = true }) p.heap })
]

-- `Close`.
unfoldable pub close_request : Bytes → Pending → Option Pending
unfolding close_done
close_request id p = elim (get id p.subs) [
  | none ↦ some p
  | some c ↦ close_done c (record p { subs = del id p.subs })
]

-- What the mailbox takes: a result if there is room. Where the request is abandoned as well, Go
-- chooses between the two.
delivered : Bool → Bytes → Sub → Sub
delivered choose res sub = elim sub.ch [
  | some old ↦ sub
  | none ↦
      if sub.done
      then (if choose then record sub { ch = some res } else sub)
      else record sub { ch = some res }
]

resolve_at : Bool → Bytes → Pending → Option ℕ → Pending
unfolding delivered
resolve_at choose res p none = p
resolve_at choose res p (some c) = elim (get c p.heap) [
  | none ↦ p
  | some sub ↦ record p { heap = put c (delivered choose res sub) p.heap }
]

-- `Resolve`, on the request id of the result and the result.
unfoldable pub resolve : Bool → Bytes × Bytes → Pending → Pending
unfolding resolve_at
resolve choose (id, res) p = resolve_at choose res p (get id p.subs)

-- `Len`.
unfoldable pub pending_count : Pending → ℕ
pending_count p = length p.subs

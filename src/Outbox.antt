-- ===== src/Outbox.antt =====
-- agent/internal/outbox/outbox.go: the agent's persistent queue of messages to the control plane.
-- `Outbox` is the open database with the counter of the next key; a file that cannot be opened or
-- read, and a closed database, are outside the model.
pub mod BigEndian
pub mod Extern
pub mod Queue
pub mod Restart
mod Tests
use Prim.Native.Nat.{min}
use cron_compose.Prelude.{
  ℕ, zero, suc, ◌+◌, ◌%◌, ◌^◌, Bool, true, false, List, Option, none, some, Bytes,
}
use BigEndian.{be_bytes, be_value}
use Extern.{Bucket, Wire}

abbrev pub u64_mod : ℕ
u64_mod = 2 ^ 64

-- How `Drain` returned: with nil on an empty queue, or with the error of one of its steps.
pub data Outcome : Type 0 where
  drained bad_message send_failed delete_failed out_of_fuel : Outcome

module _ (b : Bucket) (w : Wire) where
  open b use {Db, put, delete, first, last}
  open w use {Msg, marshal, unmarshal}

  pub record Outbox : Type 0 where
    pub db : Db
    pub next : ℕ

  -- The counter continues behind the highest key of the file.
  unfoldable pub open_outbox : Db → Outbox
  open_outbox db = elim (last db) [
    | none ↦ record { db = db; next = 0 }
    | some k ↦ record { db = db; next = (be_value k + 1) % u64_mod }
  ]

  -- The counter moves on before the transaction, whether or not that succeeds.
  enqueue_data : Outbox → Bytes → Outbox × Bool
  enqueue_data o d =
      let moved : Outbox = record { db = o.db; next = (o.next + 1) % u64_mod } in
      elim (put (be_bytes 8 o.next) d o.db) [
        | none ↦ (moved, false)
        | some db' ↦ (record moved { db = db' }, true)
      ]

  -- The flag is `err == nil`.
  unfoldable pub enqueue : Outbox → Msg → Outbox × Bool
  unfolding enqueue_data
  enqueue o m = elim (marshal m) [ none ↦ (o, false) | some d ↦ enqueue_data o d ]

  -- The callback `fn`, as a function on the state it works on; its flag is `err == nil`.
  module _ {S : Type 0} (fn : S → Msg → S × Bool) where
    -- One round of the loop: read the first entry, hand it over, delete it.
    delete_sent : (S → Db → S × Db × Outcome) → Bytes → S → Db → S × Db × Outcome
    delete_sent again k s db = elim (delete k db) [
      | none ↦ (s, db, delete_failed)
      | some db' ↦ again s db'
    ]

    hand_over : (S → Db → S × Db × Outcome) → Bytes → Db → S × Bool → S × Db × Outcome
    unfolding delete_sent
    hand_over again k db (s, true) = delete_sent again k s db
    hand_over again k db (s, false) = (s, db, send_failed)

    send_first : (S → Db → S × Db × Outcome) → S → Db → Bytes × Bytes → S × Db × Outcome
    unfolding hand_over
    send_first again s db (k, v) = elim (unmarshal v) [
      | none ↦ (s, db, bad_message)
      | some m ↦ hand_over again k db (fn s m)
    ]

    unfoldable pub drain : ℕ → S → Db → S × Db × Outcome
    unfolding send_first
    drain zero s db = (s, db, out_of_fuel)
    drain (suc fuel) s db = elim (first db) [
      | none ↦ (s, db, drained)
      | some kv ↦ send_first (drain fuel) s db kv
    ]

-- ===== src/Outbox/Restart.antt =====
-- `Open` of agent/internal/outbox/outbox.go on the file that an earlier process left.
use cron_compose.Prelude.{
  ℕ, suc, ◌+◌, ◌%◌, ◌≤◌, ◌<◌, ◌≡◌, refl, ap, List, [], ◌∷◌, ◌∙◌, some, arith, Bytes,
}
use cron_compose.Outbox.BigEndian.{be_bytes, be_value, be_value-be_bytes}
use cron_compose.Outbox.Extern.{Bucket, Wire, last_key}
use cron_compose.Outbox.Queue.{Stored, Pending}
use cron_compose.Outbox.{Outbox, u64_mod, open_outbox}

module _ (b : Bucket) (w : Wire) where
  open b use {Db, contents, last}
  open w use {Msg}

  -- The last key is that of a number below `hi`, and every key is at most that one.
  record IsStored (lo hi : ℕ) (es : List (Bytes × Bytes)) (ms : List Msg) : Type 0 where
    number : ℕ
    key : last_key es ≡ some (be_bytes 8 number)
    least : lo ≤ number
    below : number < hi
    stored : Stored b w lo (suc number) es ms

  last_key-IsStored :
      (lo hi : ℕ) (e : Bytes × Bytes) (es : List (Bytes × Bytes)) (ms : List Msg)
      → Stored b w lo hi (e ∷ es) ms
      → IsStored lo hi (e ∷ es) ms
  unfolding last_key
  last_key-IsStored lo hi (k, v) es [] s = elim s [ ]
  last_key-IsStored lo hi (k, v) [] (m ∷ []) (n, e, l, lt, u, s) = record {
    number = n;
    key = ap some e;
    least = l;
    below = lt;
    stored = (n, e, l, omega arith, u, omega arith);
  }
  last_key-IsStored lo hi (k, v) [] (m ∷ m' ∷ ms) (n, e, l, lt, u, s) = elim s [ ]
  last_key-IsStored lo hi (k, v) (e' ∷ es) (m ∷ ms) (n, e, l, lt, u, s) =
      let r = last_key-IsStored (suc n) hi e' es ms s in
      record {
        number = r.number;
        key = ground (arith, r.key);
        least = omega (arith, r.least);
        below = r.below;
        stored = (n, e, l, omega (arith, r.least), u, r.stored);
      }

  open-Pending_from :
      (lo hi : ℕ) (db : Db) (es : List (Bytes × Bytes)) (ms : List Msg)
      → hi < u64_mod
      → contents db ≡ es
      → Stored b w lo hi es ms
      → Pending b w (open_outbox b w db) ms × ((open_outbox b w db).next ≤ hi)
  unfolding open_outbox last_key
  open-Pending_from lo hi db [] [] h c s =
      rw (b.last_lem db ∙ ap last_key c, open_outbox)
        (record { lo = 0; stored = rw c (omega arith) }, omega arith)
  open-Pending_from lo hi db [] (m ∷ ms) h c s = elim s [ ]
  open-Pending_from lo hi db (e ∷ es) ms h c s =
      let r = last_key-IsStored lo hi e es ms s in
      let next_is : (be_value (be_bytes 8 r.number) + 1) % u64_mod ≡ suc r.number =
        omega (arith, r.below, be_value-be_bytes 8 r.number (omega (arith, r.below))) in
      rw (b.last_lem db ∙ ap last_key c ∙ r.key, open_outbox)
        (record { lo = lo; stored = rw (c, next_is) r.stored }, omega (arith, next_is, r.below))

  -- Opening the file of an earlier process finds that process's pending messages in their order,
  -- and its counter is behind every stored key and never ahead of that process's counter.
  pub open-Pending :
      (o : Outbox b w) (ms : List Msg)
      → o.next < u64_mod
      → Pending b w o ms
      → Pending b w (open_outbox b w o.db) ms × ((open_outbox b w o.db).next ≤ o.next)
  open-Pending o ms h q = open-Pending_from q.lo o.next o.db (contents o.db) ms h refl q.stored

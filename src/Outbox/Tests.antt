-- ===== src/Outbox/Tests.antt =====
-- Runs of the outbox model over a bucket in memory, and the theorems at concrete inputs.
use cron_compose.Prelude.{
  ◌≤◌, ◌≡◌, refl, Bool, true, false, List, [], ◌∷◌, ◌++◌, some, arith, Bytes, nat_beq,
  if◌then◌else◌,
}
use cron_compose.Outbox.BigEndian.{be_bytes}
use cron_compose.Outbox.Extern.{Bucket, Wire, insert_sorted, remove_key, first_entry, last_key}
use cron_compose.Outbox.Queue.{Pending, Drains, enqueue-Pending, drain-Drains}
use cron_compose.Outbox.Restart.{open-Pending}
use cron_compose.Outbox.{Outbox, send_failed, enqueue, open_outbox, drain}

some_inj : (a b : List (Bytes × Bytes)) → some a ≡ some b → b ≡ a
some_inj a b e = cc

some_byte_inj : (a b : Bytes) → some a ≡ some b → some b ≡ some a
some_byte_inj a b e = cc

abbrev memory : Bucket
memory = record {
  Db = List (Bytes × Bytes);
  contents = λ db. db;
  first = λ db. first_entry db;
  last = λ db. last_key db;
  put = λ k v db. some (insert_sorted k v db);
  delete = λ k db. some (remove_key k db);
  first_lem = λ db. refl;
  last_lem = λ db. refl;
  put_lem = λ k v db db' e. some_inj _ _ e;
  delete_lem = λ k db db' e. some_inj _ _ e;
}

abbrev plain : Wire
plain = record {
  Msg = Bytes;
  marshal = λ m. some m;
  unmarshal = λ d. some d;
  unmarshal-marshal = λ m d e. some_byte_inj _ _ e;
}

-- The control plane takes what does not start with 9.
abbrev receive : List Bytes → Bytes → List Bytes × Bool
receive s [] = (s, false)
receive s (x ∷ m) = if nat_beq x 9 then (s, false) else (s ++ (x ∷ m) ∷ [], true)

abbrev two_pending : Outbox memory plain
two_pending = record { db = (be_bytes 8 300, 5 ∷ []) ∷ (be_bytes 8 301, 9 ∷ []) ∷ []; next = 302 }

two_pending-Pending : Pending memory plain two_pending ((5 ∷ []) ∷ (9 ∷ []) ∷ [])
two_pending-Pending = record {
  lo = 0;
  stored = (
    300,
    refl,
    omega arith,
    omega arith,
    refl,
    (301, refl, omega arith, omega arith, refl, omega arith),
  );
}

be_bytes_300 : be_bytes 8 300 ≡ 0 ∷ 0 ∷ 0 ∷ 0 ∷ 0 ∷ 0 ∷ 1 ∷ 44 ∷ []
unfolding be_bytes
be_bytes_300 = refl

enqueue-Pending_example :
    Pending memory plain
      (enqueue memory plain two_pending (7 ∷ [])).0
      ((5 ∷ []) ∷ (9 ∷ []) ∷ (7 ∷ []) ∷ [])
unfolding enqueue
enqueue-Pending_example =
    enqueue-Pending memory plain two_pending (7 ∷ []) _ (omega arith) two_pending-Pending

drain-Drains_example :
    Drains memory plain receive 302 []
      ((5 ∷ []) ∷ (9 ∷ []) ∷ [])
      (drain memory plain receive 3 [] two_pending.db)
drain-Drains_example =
    drain-Drains memory plain receive two_pending [] _ 3 two_pending-Pending (omega arith)

drain_stops_at_error :
    drain memory plain receive 3 [] two_pending.db
    ≡ ((5 ∷ []) ∷ [], (be_bytes 8 301, 9 ∷ []) ∷ [], send_failed)
unfolding drain remove_key be_bytes
drain_stops_at_error = refl

open-Pending_example :
    Pending memory plain (open_outbox memory plain two_pending.db) ((5 ∷ []) ∷ (9 ∷ []) ∷ [])
    × ((open_outbox memory plain two_pending.db).next ≤ 302)
open-Pending_example = open-Pending memory plain two_pending _ (omega arith) two_pending-Pending

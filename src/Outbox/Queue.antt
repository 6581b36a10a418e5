-- ===== src/Outbox/Queue.antt =====
-- The outbox as a first-in first-out queue: what `Enqueue` and `Drain` of
-- agent/internal/outbox/outbox.go do to the list of pending messages.
use cron_compose.Prelude.{
  if◌then◌else◌, ℕ, zero, suc, ◌+◌, ◌%◌, ◌≤◌, ◌<◌, ◌≡◌, refl, ◌∙◌, ap, Bool, true, false, List, [],
  ◌∷◌, ◌++◌, some, Option-cases, inl, inr, arith, Bytes, bytes_eq, beq_refl, length,
}
use cron_compose.Outbox.BigEndian.{be_bytes, bytes_beq-be_bytes, bytes_ltb-be_bytes}
use cron_compose.Outbox.Extern.{Bucket, Wire, insert_sorted, remove_key, first_entry}
use cron_compose.Outbox.{
  enqueue_data, delete_sent, hand_over, send_first, Outbox, u64_mod, Outcome, drained, send_failed,
  delete_failed, enqueue, drain,
}

module _ (b : Bucket) (w : Wire) where
  open b use {Db, contents, put, delete, first}
  open w use {Msg, marshal, unmarshal}

  -- The entries hold these messages, under keys that grow from `lo` and stay below `hi`.
  abbrev pub Stored : ℕ → ℕ → List (Bytes × Bytes) → List Msg → Type 0
  Stored lo hi [] [] = lo ≤ hi
  Stored lo hi ((k, d) ∷ es) (m ∷ ms) =
      (n : ℕ) × (k ≡ be_bytes 8 n)
      × (lo ≤ n)
      × (n < hi)
      × (unmarshal d ≡ some m)
      × Stored (suc n) hi es ms
  Stored _ _ _ _ = ⊥

  -- The outbox is open on these pending messages, oldest first.
  pub record Pending (o : Outbox b w) (ms : List Msg) : Type 0 where
    pub lo : ℕ
    pub stored : Stored lo o.next (contents o.db) ms

  insert_sorted-Stored :
      (lo hi : ℕ) (es : List (Bytes × Bytes)) (ms : List Msg) (d : Bytes)
      → hi < u64_mod
      → Stored lo hi es ms
      → insert_sorted (be_bytes 8 hi) d es ≡ es ++ (be_bytes 8 hi, d) ∷ []
  unfolding insert_sorted
  insert_sorted-Stored lo hi [] ms d h s = refl
  insert_sorted-Stored lo hi ((k, v) ∷ es) [] d h s = elim s [ ]
  insert_sorted-Stored lo hi ((k, v) ∷ es) (m ∷ ms) d h (n, e, _, lt, _, s) = ground (
    arith,
    bytes_beq-be_bytes 8 n hi (omega arith) h,
    bytes_ltb-be_bytes 8 hi n h (omega arith),
    insert_sorted-Stored (suc n) hi es ms d h s,
  )

  Stored-mono :
      (lo hi hi' : ℕ) (es : List (Bytes × Bytes)) (ms : List Msg)
      → hi ≤ hi'
      → Stored lo hi es ms
      → Stored lo hi' es ms
  Stored-mono lo hi hi' [] [] h s = omega arith
  Stored-mono lo hi hi' [] (m ∷ ms) h s = elim s [ ]
  Stored-mono lo hi hi' ((k, v) ∷ es) [] h s = elim s [ ]
  Stored-mono lo hi hi' ((k, v) ∷ es) (m ∷ ms) h (n, e, l, lt, u, s) =
      (n, e, l, omega arith, u, Stored-mono (suc n) hi hi' es ms h s)

  Stored-append :
      (lo hi : ℕ) (es : List (Bytes × Bytes)) (ms : List Msg) (d : Bytes) (m : Msg)
      → unmarshal d ≡ some m
      → Stored lo hi es ms
      → Stored lo (suc hi) (es ++ (be_bytes 8 hi, d) ∷ []) (ms ++ m ∷ [])
  Stored-append lo hi [] [] d m u s = (hi, refl, s, omega arith, u, omega arith)
  Stored-append lo hi [] (m' ∷ ms) d m u s = elim s [ ]
  Stored-append lo hi ((k, v) ∷ es) [] d m u s = elim s [ ]
  Stored-append lo hi ((k, v) ∷ es) (m' ∷ ms) d m u (n, e, l, lt, u', s) =
      (n, e, l, omega arith, u', Stored-append (suc n) hi es ms d m u s)

  put-Stored :
      (lo hi : ℕ) (db db' : Db) (ms : List Msg) (d : Bytes) (m : Msg)
      → hi < u64_mod
      → put (be_bytes 8 hi) d db ≡ some db'
      → unmarshal d ≡ some m
      → Stored lo hi (contents db) ms
      → Stored lo (suc hi) (contents db') (ms ++ m ∷ [])
  put-Stored lo hi db db' ms d m h p u s =
      rw (b.put_lem _ _ _ _ p, insert_sorted-Stored lo hi (contents db) ms d h s)
        (Stored-append lo hi (contents db) ms d m u s)

  enqueue_data-Pending :
      (o : Outbox b w) (m : Msg) (d : Bytes) (ms : List Msg)
      → unmarshal d ≡ some m
      → o.next + 1 < u64_mod
      → Pending o ms
      → Pending (enqueue_data b w o d).0 (if (enqueue_data b w o d).1 then ms ++ m ∷ [] else ms)
  unfolding enqueue_data
  enqueue_data-Pending o m d ms u h q = elim (Option-cases (put (be_bytes 8 o.next) d o.db)) [
    | inl failed ↦
        rw (failed, enqueue_data)
          (record {
            lo = q.lo;
            stored = rw next_lem (Stored-mono q.lo o.next (suc o.next) _ ms (omega arith) q.stored);
          })
    | inr (db', p) ↦
        rw (p, enqueue_data)
          (record {
            lo = q.lo;
            stored =
                rw next_lem (put-Stored q.lo o.next o.db db' ms d m (omega arith) p u q.stored);
          })
  ]
    where
      next_lem : (o.next + 1) % u64_mod ≡ suc o.next
      next_lem = omega arith

  -- A call of `Enqueue` that returns nil puts the message behind all pending ones, and one that
  -- returns an error leaves the queue as it was, while the counter has not used up its 64 bits.
  pub enqueue-Pending :
      (o : Outbox b w) (m : Msg) (ms : List Msg)
      → o.next + 1 < u64_mod
      → Pending o ms
      → Pending (enqueue b w o m).0 (if (enqueue b w o m).1 then ms ++ m ∷ [] else ms)
  unfolding enqueue
  enqueue-Pending o m ms h q = elim (Option-cases (marshal m)) [
    | inl e ↦ rw (e, enqueue) q
    | inr (d, e) ↦ rw (e, enqueue) (enqueue_data-Pending o m d ms (w.unmarshal-marshal m d e) h q)
  ]

  -- The reference for `Drain`: the messages go to the callback in order, each leaves the queue
  -- once the callback has taken it, and the first error ends the run.
  module _ {S : Type 0} (fn : S → Msg → S × Bool) where
    pub data Feeds : S → List Msg → S → List Msg → Outcome → Type 0 where
      empty : (s : S) → Feeds s [] s [] drained
      refused :
          {s s' : S} {m : Msg} (ms : List Msg)
          → fn s m ≡ (s', false)
          → Feeds s (m ∷ ms) s' (m ∷ ms) send_failed
      kept :
          {s s' : S} {m : Msg} (ms : List Msg)
          → fn s m ≡ (s', true)
          → Feeds s (m ∷ ms) s' (m ∷ ms) delete_failed
      taken :
          {s s' t : S} {m : Msg} {ms rest : List Msg} {out : Outcome}
          → fn s m ≡ (s', true)
          → Feeds s' ms t rest out
          → Feeds s (m ∷ ms) t rest out

    -- The run of `Drain` from this state and these messages, and what it leaves in the database.
    pub record Drains (hi : ℕ) (s : S) (ms : List Msg) (r : S × Db × Outcome) : Type 0 where
      pub rest : List Msg
      pub lo : ℕ
      pub feeds : Feeds s ms r.0 rest r.2
      pub stored : Stored lo hi (contents r.1) rest

    -- Facts of one round, whose first entry holds `m` under the key of `n`.
    module _ (hi n : ℕ) (k v : Bytes) (es : List (Bytes × Bytes)) (m : Msg) (ms : List Msg)
        (db : Db) (at_first : contents db ≡ (k, v) ∷ es) (key : k ≡ be_bytes 8 n) (below : n < hi)
        (value : unmarshal v ≡ some m) (behind : Stored (suc n) hi es ms)
        (again : S → Db → S × Db × Outcome)
        (rest_Drains : (s : S) (db' : Db) → contents db' ≡ es → Drains hi s ms (again s db')) where
      whole : Stored n hi (contents db) (m ∷ ms)
      whole = rw at_first (n, key, omega arith, below, value, behind)

      delete_sent-Drains :
          (s s' : S) → fn s m ≡ (s', true) → Drains hi s (m ∷ ms) (delete_sent b w fn again k s' db)
      unfolding delete_sent
      delete_sent-Drains s s' sent = elim (Option-cases (delete k db)) [
        | inl failed ↦
            rw (failed, delete_sent)
              (record { rest = m ∷ ms; lo = n; feeds = kept ms sent; stored = whole })
        | inr (db', e) ↦
            let left : contents db' ≡ es =
              b.delete_lem k db db' e
              ∙ rw at_first (unfold remove_key in ground (arith, beq_refl k)) in
            let r = rest_Drains s' db' left in
            rw (e, delete_sent)
              (record { rest = r.rest; lo = r.lo; feeds = taken sent r.feeds; stored = r.stored })
      ]

      hand_over-Drains :
          (s : S) (r : S × Bool) → fn s m ≡ r → Drains hi s (m ∷ ms) (hand_over b w fn again k db r)
      unfolding hand_over
      hand_over-Drains s (s', true) e = delete_sent-Drains s s' e
      hand_over-Drains s (s', false) e = record {
        rest = m ∷ ms;
        lo = n;
        feeds = refused ms e;
        stored = whole;
      }

      send_first-Drains : (s : S) → Drains hi s (m ∷ ms) (send_first b w fn again s db (k, v))
      unfolding send_first
      send_first-Drains s = rw (value, send_first) (hand_over-Drains s (fn s m) refl)

    drain-Drains_from :
        (fuel hi lo : ℕ) (s : S) (db : Db) (es : List (Bytes × Bytes)) (ms : List Msg)
        → contents db ≡ es
        → Stored lo hi es ms
        → length ms < fuel
        → Drains hi s ms (drain b w fn fuel s db)
    unfolding drain
    drain-Drains_from zero hi lo s db es ms e st h = elim h [ ]
    drain-Drains_from (suc fuel) hi lo s db [] [] e st h =
        rw (b.first_lem db ∙ ap first_entry e, drain)
          (record { rest = []; lo = lo; feeds = empty s; stored = rw e st })
    drain-Drains_from (suc fuel) hi lo s db [] (m ∷ ms) e st h = elim st [ ]
    drain-Drains_from (suc fuel) hi lo s db ((k, v) ∷ es) [] e st h = elim st [ ]
    drain-Drains_from (suc fuel) hi lo s db ((k, v) ∷ es) (m ∷ ms) e (n, key, l, lt, u, st) h =
        let again = λ (s' : S) (db' : Db) (e' : contents db' ≡ es).
          drain-Drains_from fuel hi (suc n) s' db' es ms e' st (omega arith) in
        rw (b.first_lem db ∙ ap first_entry e, drain)
          (send_first-Drains hi n k v es m ms db e key lt u st (drain b w fn fuel) again s)

    -- `Drain` terminates within one round more than there are messages, and does to the pending
    -- messages what the reference says: they are handed over oldest first, each is deleted only
    -- after the callback took it, and those behind the first error stay pending in their order.
    pub drain-Drains :
        (o : Outbox b w) (s : S) (ms : List Msg) (fuel : ℕ)
        → Pending o ms
        → length ms < fuel
        → Drains o.next s ms (drain b w fn fuel s o.db)
    drain-Drains o s ms fuel q h =
        drain-Drains_from fuel o.next q.lo s o.db (contents o.db) ms refl q.stored h

-- ===== src/Outbox/Extern.antt =====
-- What agent/internal/outbox/outbox.go takes from code that is not the program's: the bbolt bucket
-- (go.etcd.io/bbolt), whose cursor walks the keys in byte order and whose transactions succeed or
-- leave the bucket as it was, and the protobuf encoding of an AgentMessage.
use cron_compose.Prelude.{
  bytes_eq, ◌≡◌, List, [], ◌∷◌, Option, none, some, Bytes, ◌==◌, if◌then◌else◌,
}
use cron_compose.Outbox.BigEndian.{bytes_ltb}

module _ {ℓ} {A : Type ℓ} where
  -- `Put`: a new key takes its place in byte order, an old one keeps its place.
  unfoldable pub insert_sorted : Bytes → A → List (Bytes × A) → List (Bytes × A)
  insert_sorted k v [] = (k, v) ∷ []
  insert_sorted k v ((j, w) ∷ m) =
      if j == k
      then (k, v) ∷ m
      else (if bytes_ltb k j then (k, v) ∷ (j, w) ∷ m else (j, w) ∷ insert_sorted k v m)

  -- `Delete`.
  unfoldable pub remove_key : Bytes → List (Bytes × A) → List (Bytes × A)
  remove_key k [] = []
  remove_key k ((j, w) ∷ m) = if j == k then m else (j, w) ∷ remove_key k m

  -- `Cursor().First()`.
  abbrev pub first_entry : List (Bytes × A) → Option (Bytes × A)
  first_entry [] = none
  first_entry (x ∷ m) = some x

  -- The key of `Cursor().Last()`.
  unfoldable pub last_key : List (Bytes × A) → Option Bytes
  last_key [] = none
  last_key ((k, v) ∷ m) = elim (last_key m) [ none ↦ some k | some j ↦ some j ]

-- A bucket of byte strings. `put` and `delete` are an `Update` transaction, `none` if it failed.
pub record Bucket : Type 1 where
  pub Db : Type 0
  pub contents : Db → List (Bytes × Bytes)
  pub first : Db → Option (Bytes × Bytes)
  pub last : Db → Option Bytes
  pub put : Bytes → Bytes → Db → Option Db
  pub delete : Bytes → Db → Option Db
  pub first_lem : (db : Db) → first db ≡ first_entry (contents db)
  pub last_lem : (db : Db) → last db ≡ last_key (contents db)
  pub put_lem :
      (k v : Bytes) (db db' : Db)
      → put k v db ≡ some db'
      → contents db' ≡ insert_sorted k v (contents db)
  pub delete_lem :
      (k : Bytes) (db db' : Db) → delete k db ≡ some db' → contents db' ≡ remove_key k (contents db)

-- `proto.Marshal` and `proto.Unmarshal`, which reads back what was written.
pub record Wire : Type 1 where
  pub Msg : Type 0
  pub marshal : Msg → Option Bytes
  pub unmarshal : Bytes → Option Msg
  pub unmarshal-marshal : (m : Msg) (d : Bytes) → marshal m ≡ some d → unmarshal d ≡ some m

-- ===== src/Store/Files.antt =====
-- What agent/internal/store takes from the operating system and from encoding/json: the files of the
-- data directory by name, and an encoding that reads back what it wrote.
use Prim.Native.String.{String}
use cron_compose.Prelude.{ℕ, string_eq, ◌==◌, ◌≡◌, Bool, true, false, List, Option, some, Bytes}
use cron_compose.Prelude.Map.{get}

-- `os.ReadFile`: the file is not there, cannot be read, or has this content.
pub data Read : Type 0 where
  missing unreadable : Read
  content : Bytes → Read

-- `write` is `os.WriteFile`, whose flag is `err == nil` and which may leave a part of the bytes when
-- it fails; `rename` is `os.Rename`, which happens as a whole or not at all.
pub record Disk : Type 1 where
  pub State : Type 0
  pub read : String → State → Read
  pub write : String → Bytes → State → State × Bool
  pub rename : String → String → State → Option State
  pub read-write :
      (f : String) (b : Bytes) (st st' : State)
      → write f b st ≡ (st', true)
      → read f st' ≡ content b
  pub read-write_other :
      (f g : String) (b : Bytes) (st : State)
      → (f == g) ≡ false
      → read g (write f b st).0 ≡ read g st
  pub read-rename :
      (f g : String) (st st' : State) → rename f g st ≡ some st' → read g st' ≡ read f st
  pub read-rename_other :
      (f g h : String) (st st' : State)
      → rename f g st ≡ some st'
      → (f == h) ≡ false
      → (g == h) ≡ false
      → read h st' ≡ read h st

-- JSON of a value whose maps are only read: they are taken in the order in which they are written.
pub record Codec (A : Type 0) : Type 0 where
  pub encode : A → Option Bytes
  pub decode : Bytes → Option A
  pub decode-encode : (a : A) (b : Bytes) → encode a ≡ some b → decode b ≡ some a

-- JSON of the map of job states, which is read back as a map.
pub record StateCodec : Type 0 where
  pub encode : List (String × ℕ) → Option Bytes
  pub decode : Bytes → Option (List (String × ℕ))
  pub decode-encode :
      (m : List (String × ℕ)) (b : Bytes)
      → encode m ≡ some b
      → (m' : List (String × ℕ)) × (decode b ≡ some m') × ((k : String) → get k m' ≡ get k m)

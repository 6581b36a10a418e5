-- ===== src/Store/Memory.antt =====
-- A data directory in memory, for runs of the model.
use Prim.Native.String.{String}
use cron_compose.Prelude.{
  nat_eq, string_eq, bytes_eq, ◌==◌, ==_iff, ◌≡◌, refl, Bool, true, false, List, [], Option, none,
  some, Bytes, arith,
}
use cron_compose.Prelude.Map.{get, put, del, get-put, get-del}
use cron_compose.Store.Files.{Disk, Read, missing, content}

abbrev found : Option Bytes → Read
found none = missing
found (some b) = content b

-- A directory that can be full: then a write leaves an empty file behind, and fails.
abbrev pub Dir : Type 0
Dir = Bool × List (String × Bytes)

unfoldable pub write : String → Bytes → Dir → Dir × Bool
write f b (true, m) = ((true, put f [] m), false)
write f b (false, m) = ((false, put f b m), true)

moved : String → String → Dir → Option Bytes → Option Dir
moved f g st none = none
moved f g (full, m) (some b) = some (full, put g b (del f m))

unfoldable pub rename : String → String → Dir → Option Dir
unfolding moved
rename f g st = moved f g st (get f st.1)

pub read-write :
    (f : String) (b : Bytes) (st st' : Dir)
    → write f b st ≡ (st', true)
    → found (get f st'.1) ≡ content b
unfolding write
read-write f b (true, m) st' e = ground (arith, e)
read-write f b (false, m) st' e = ground (arith, e, get-put f f b m, ==_iff f f)

pub read-write_other :
    (f g : String) (b : Bytes) (st : Dir)
    → (f == g) ≡ false
    → found (get g (write f b st).0.1) ≡ found (get g st.1)
unfolding write
read-write_other f g b (true, m) h = ground (arith, h, get-put f g [] m)
read-write_other f g b (false, m) h = ground (arith, h, get-put f g b m)

pub read-rename :
    (f g : String) (st st' : Dir)
    → rename f g st ≡ some st'
    → found (get g st'.1) ≡ found (get f st.1)
unfolding rename
read-rename f g (full, m) st' e = moved_lem (get f m) refl e
  where
    moved_lem :
        (o : Option Bytes)
        → get f m ≡ o
        → moved f g (full, m) o ≡ some st'
        → found (get g st'.1) ≡ found (get f m)
    moved_lem none h e = ground (arith, e)
    moved_lem (some b) h e = ground (arith, e, h, get-put g g b (del f m), ==_iff g g)

pub read-rename_other :
    (f g h : String) (st st' : Dir)
    → rename f g st ≡ some st'
    → (f == h) ≡ false
    → (g == h) ≡ false
    → found (get h st'.1) ≡ found (get h st.1)
unfolding rename
read-rename_other f g h (full, m) st' e n n' = moved_lem (get f m) e
  where
    moved_lem :
        (o : Option Bytes)
        → moved f g (full, m) o ≡ some st'
        → found (get h st'.1) ≡ found (get h m)
    moved_lem none e = ground (arith, e)
    moved_lem (some b) e = ground (arith, e, n, n', get-put g h b (del f m), get-del f h m)

abbrev pub memory : Disk
memory = record {
  State = Dir;
  read = λ f st. found (get f st.1);
  write = λ f b st. write f b st;
  rename = λ f g st. rename f g st;
  read-write = read-write;
  read-write_other = read-write_other;
  read-rename = read-rename;
  read-rename_other = read-rename_other;
}

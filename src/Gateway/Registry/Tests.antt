-- ===== src/Gateway/Registry/Tests.antt =====
-- An agent that connects twice, and the theorems in the states this gives.
use cron_compose.Prelude.{nat_eq, string_eq, ==_iff, arith, refl, false, [], ◌∷◌}
use cron_compose.Prelude.Map.{get}
use cron_compose.Gateway.Registry.Live.{IsLive, empty-IsLive}
use cron_compose.Gateway.Registry.Add.{Added, add-Added}
use cron_compose.Gateway.Registry.Remove.{Removed, remove-Removed}
use cron_compose.Gateway.Registry.{Conn, Registry, empty}

-- The server "s" has connected, and then connected again.
once : Added "s" empty
once = add-Added "s" empty empty-IsLive

twice : Added "s" once.after
twice = add-Added "s" once.after once.live

add-Added_example : Added "s" once.after
add-Added_example = add-Added "s" once.after once.live

abbrev first : Conn
first = record { server_id = "s"; out = []; done = false }

abbrev single : Registry
single = record { conns = ("s", 0) ∷ []; heap = (0, first) ∷ []; next = 1 }

single-IsLive : IsLive single
unfolding get
single-IsLive = record {
  open_conn =
      λ s c e. (first, ground (arith, e, ==_iff 0 c), ground (arith, e, ==_iff "s" s), refl);
  registered = λ c conn e d. ground (arith, e, d, ==_iff 0 c, ==_iff "s" conn.server_id);
  allocated = λ c conn e. ground (arith, e, ==_iff 0 c);
}

remove-Removed_example : Removed 0 first single
unfolding get
remove-Removed_example = remove-Removed 0 first single single-IsLive refl

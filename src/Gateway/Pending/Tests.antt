-- ===== src/Gateway/Pending/Tests.antt =====
-- Two requests and late results, and the theorem at a concrete input.
use cron_compose.Prelude.{nat_eq, bytes_eq, Bool, true, List, [], ◌∷◌, Bytes}
use cron_compose.Prelude.Text.{codes}

abbrev results : List (Bool × Bytes × Bytes)
results =
    (true, codes "b", codes "x") ∷ (true, codes "a", codes "y") ∷ (true, codes "a", codes "z") ∷ []

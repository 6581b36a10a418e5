-- ===== src/Gateway/Registry/Live.antt =====
-- What holds of the registry of control-plane/internal/agentgw/registry.go at every moment.
use Prim.Native.String.{String}
use cron_compose.Prelude.{ℕ, ◌<◌, nat_eq, string_eq, ◌≡◌, false, some, arith}
use cron_compose.Prelude.Map.{get}
use cron_compose.Gateway.Registry.{Conn, Registry, empty}

-- The registered connections are exactly those whose stream is open, each under its own server.
pub record IsLive (r : Registry) : Type 0 where
  pub open_conn :
      (server : String) (c : ℕ)
      → get server r.conns ≡ some c
      → (conn : Conn) × (get c r.heap ≡ some conn) × (conn.server_id ≡ server) × (conn.done ≡ false)
  pub registered :
      (c : ℕ) (conn : Conn)
      → get c r.heap ≡ some conn
      → conn.done ≡ false
      → get conn.server_id r.conns ≡ some c
  pub allocated : (c : ℕ) (conn : Conn) → get c r.heap ≡ some conn → c < r.next

pub empty-IsLive : IsLive empty
unfolding get
empty-IsLive = record {
  open_conn = λ server c e. absurd (ground (arith, e));
  registered = λ c conn e d. absurd (ground (arith, e));
  allocated = λ c conn e. absurd (ground (arith, e));
}

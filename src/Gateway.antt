-- ===== src/Gateway.antt =====
-- control-plane/internal/agentgw: the control plane's side of the agents' streams.
pub mod Registry
pub mod Versions
pub mod Pending
pub mod Progress
pub mod Catalog

-- ===== src/Connectors.antt =====
-- agent/internal/connectors: commands to the service managers of the host.
pub mod Host
pub mod Privilege
pub mod Files
pub mod Command
pub mod Apply
pub mod Braces
pub mod Nginx
pub mod Direct
pub mod Execute
pub mod Memory
mod Tests

-- ===== src/Deploy.antt =====
-- agent/internal/deploy: the deploys of the agent. `Redact`, `Scrub` and `Events` are the log of a run,
-- `Release` is the tree of releases, `Plan`, `Places`, `Waves` and `Scripts` say what there is to do and
-- where, and `Acts`, `Stages`, `Flow` and `Pipeline` do it.
pub mod Redact
pub mod Scrub
pub mod Events
pub mod Release
pub mod Plan
pub mod Places
pub mod Acts
pub mod Waves
pub mod Stages
pub mod Flow
pub mod Pipeline
pub mod Scripts
mod Tests

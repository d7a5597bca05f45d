-- ===== src/Tests.antt =====
-- Runs of the models, and the theorems at them.
pub mod QueueRuns
pub mod PlainRuns
pub mod ServerRuns
pub mod RelayRuns
pub mod CounterRuns
pub mod HttpRuns
pub mod DiscoveryRuns
pub mod CopyRuns
pub mod ServingRuns
pub mod SharedRuns
pub mod StartRuns

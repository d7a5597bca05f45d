-- ===== src/Metrics.antt =====
-- pkg/server/metrics.go: the page of Prometheus metrics.
pub mod Labels
pub mod Samples
pub mod Page
pub mod Groups
pub mod Texts
pub mod Lines

-- ===== src/Metrics.antt =====
-- src/metrics.rs: the metrics registry.
pub mod Histogram
pub mod Cumulative
mod Observed
pub mod Series
pub mod Traces
pub mod Rates
pub mod Buckets
pub mod Window
pub mod Labeled
pub mod Central
pub mod Persist
mod Tests

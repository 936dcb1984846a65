-- ===== src/Cohorts.antt =====
-- packages/service/src/operator-cohorts.ts.
pub mod Config
pub mod Draft
pub mod State
pub mod Drafts
pub mod Lifecycle
pub mod Reads
pub mod Step
pub mod Cases
pub mod Honesty
pub mod Drain
pub mod Finalize
pub mod Slot
pub mod Fate
pub mod Invariant

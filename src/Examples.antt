-- ===== src/Examples.antt =====
-- The theorems at concrete inputs: a cluster of two pods whose every command succeeds.
mod Data
mod Rounds
mod Validation
mod Honest
mod Careful
mod Waiting
mod Refusing
mod Tables
mod Reaching
mod Probing
mod Measuring
mod Cluster
mod Services
mod Managing
mod Starting
mod Placing
mod Hanging
mod Reporting

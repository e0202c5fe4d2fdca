-- ===== src/Matrix.antt =====
-- pkg/matrix: the truth tables, what is expected and observed, the probes that observe it, and the
-- model of the cluster that they run over.
pub mod Bandwidth
pub mod TruthTable
pub mod Reachability
pub mod Connect
pub mod Probe
pub mod Round
pub mod Validate
pub mod Model
pub mod Cluster
pub mod Manager
pub mod Template
pub mod Servers
pub mod ClientSet

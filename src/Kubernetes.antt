-- ===== src/Kubernetes.antt =====
-- pkg/entities/kubernetes: what the program asks of the API server.
pub mod Exec
pub mod PodWait
pub mod Service

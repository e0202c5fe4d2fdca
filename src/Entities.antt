-- ===== src/Entities.antt =====
-- pkg/entities: containers, namespaces, pods, their names in a table, and the services over them.
pub mod Container
pub mod PodString
pub mod Pod
pub mod Namespace
pub mod Service

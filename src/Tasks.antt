-- ===== src/Tasks.antt =====
-- The task documents of backend/app/models/task.py and the services that keep them consistent.
pub mod Model
pub mod Collection
pub mod Graph
pub mod Search
pub mod Link
pub mod Parents
pub mod Approval
pub mod Gather
pub mod Memory
pub mod Examples

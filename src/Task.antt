-- ===== src/Task.antt =====
-- Tasks: the task files (models/task.rs), the file-based manager (task/mod.rs) and the graph of
-- their dependencies (task/graph.rs).
pub mod Model
pub mod Graph
pub mod Manager

-- ===== src/Tools.antt =====
-- avs-tools: the registry of tools, its search index, and the execution of tool calls.
pub mod Index
pub mod Registry
pub mod Execute
pub mod Schema

-- ===== src/Core.antt =====
-- The shared types of avs-core: JSON values, errors, messages, requests and responses, tool calls,
-- and what a strategy returns.
pub mod Json
pub mod Error
pub mod Message
pub mod Model
pub mod Tool
pub mod Strategy

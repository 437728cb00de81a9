-- ===== src/Hitl.antt =====
-- avs-hitl: which tool calls want a human's approval, the queue of approvals, and the hook that the
-- strategies call.
pub mod Types
pub mod Policy
pub mod Queue
pub mod Context

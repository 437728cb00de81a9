-- ===== src/React.antt =====
-- avs-react: the cycle that the strategies share, and the ReAct strategy.
pub mod Cycle
pub mod Strategy
pub mod Hitl
pub mod Budget

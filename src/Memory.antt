-- ===== src/Memory.antt =====
-- avs-memory: the working memory in front of the session store, and the store in SQL.
pub mod Working
pub mod Session

-- ===== src/Agent.antt =====
-- src/agent: the agent's plans, its context window and the compression of it.
pub mod Plan
pub mod Tokenizer
pub mod Context
pub mod KeyInfo
pub mod Compress
pub mod Patch
pub mod Guardrail
pub mod React

-- ===== src/Agents.antt =====
-- services/agent_registry.py: the connected agents, and the commands that wait for an answer.
pub mod Registry
pub mod Pending
pub mod Tokens
mod Tests

-- ===== src/Agents/Tokens.antt =====
-- services/agent_auth.py and api/agents.py: who may connect as an agent. The tokens (`mint_token`,
-- `revoke_agent`), the check of a token (`_authenticate`), and the first part of `agent_ws`.
pub mod Defs
pub mod Connect
pub mod Admitted
pub mod Later
mod Tests

-- ===== src/Auth.antt =====
-- api/deps.py, api/auth.py and services/auth_service.py: tokens, the users they let in, and how they
-- are revoked.
pub mod Access
pub mod Users
pub mod Versions
pub mod Admission
pub mod Revocation
pub mod Sockets
mod Tests

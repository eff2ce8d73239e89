-- ===== src/Restart.antt =====
-- services/rolling_restart_manager.py: restarting the services of a cluster one after another.
-- Defs to Run are the code; Phase is an onlooker's view of the commands that are sent, and the
-- modules behind it show what it sees.
pub mod Defs
pub mod Managed
pub mod Run
pub mod Phase
mod Safety
mod Health
mod OneByOne
pub mod Promise
pub mod Tests
pub mod External
pub mod ExternalPromise
pub mod PreCheck
pub mod Harmless
pub mod Live
pub mod Completes

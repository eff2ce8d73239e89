-- ===== src/Upgrade.antt =====
-- services/upgrade_manager.py: what the checks before an upgrade say, and what a rolling upgrade
-- does to the brokers of a cluster.
pub mod Defs
pub mod Repo
pub mod Checks
pub mod PreCheck
pub mod Broker
pub mod Run
pub mod Stages
pub mod Steps
pub mod Waits
pub mod OneBroker
pub mod Harmless
pub mod Rows
pub mod Outcome
pub mod Promise
pub mod Looks
pub mod Ready
pub mod Offers
pub mod Tests

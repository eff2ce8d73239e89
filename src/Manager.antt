-- ===== src/Manager.antt =====
-- services/cluster_manager.py: start, stop, cleanup and live status of a cluster's services.
pub mod Units
pub mod Ssh
pub mod Agent
pub mod Cleanup
pub mod Lifecycle
pub mod Status
pub mod Frame
pub mod Started
pub mod StopFrame
pub mod Stopped
pub mod Quiet
pub mod Deadline
pub mod Synced
pub mod Chosen
pub mod Order
mod Tests

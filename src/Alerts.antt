-- ===== src/Alerts.antt =====
-- api/alerts.py: the incidents that Alertmanager's webhook records; services/alert_manager.py: the
-- rules that Prometheus reads.
pub mod Incidents
pub mod Recorded
pub mod Templates
pub mod Scalars
pub mod Rules
pub mod Readable
pub mod Durations
pub mod Seeded
pub mod Revised
mod Tests

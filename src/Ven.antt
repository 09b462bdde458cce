-- ===== src/Ven.antt =====
-- openleadr/client.py: the side of the VEN.
pub mod Events
pub mod Transport
pub mod Registration
pub mod Polling
pub mod Cron
pub mod Reports
pub mod Opts

-- ===== src/Vtn.antt =====
-- The server side: openleadr/service/*.py and the queue operations of openleadr/server.py.
pub mod EventService
pub mod Server
pub mod RegistrationService
pub mod ReportService
pub mod Handler

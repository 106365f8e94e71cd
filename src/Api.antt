-- ===== src/Api.antt =====
-- src/api.rs: the parts of the HTTP interface that decide what is let in and where it goes.
pub mod RateLimit
pub mod Filter
pub mod Transform
pub mod Ingest
pub mod Http

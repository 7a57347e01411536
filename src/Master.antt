-- ===== src/Master.antt =====
-- src/master/: the API's mappers, the control service, the log store and the settings.
pub mod Mappers
pub mod Service
pub mod Config
pub mod LogStore
pub mod Start

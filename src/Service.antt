-- ===== src/Service.antt =====
-- What surrounds the consumers in a process: src/api.py and src/logging_config.py.
pub mod Api
pub mod Logging

-- ===== src/Core.antt =====
-- app/core: the shared enumerations (core/enums.py) and the settings that the modelled parts read
-- (core/config.py).
pub mod Enums
pub mod Config

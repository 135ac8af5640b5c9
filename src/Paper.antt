-- ===== src/Paper.antt =====
-- app/paper: the research-only accounting engine.
pub mod Symbols
pub mod Models
pub mod Engine

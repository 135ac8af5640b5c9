-- ===== src/Intraday/Pipeline.antt =====
-- app/intraday/pipeline.py: `IntradayShadowPipeline.process_snapshot`.
pub mod State
pub mod Steps
pub mod Process

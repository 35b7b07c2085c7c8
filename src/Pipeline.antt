-- ===== src/Pipeline.antt =====
-- source/pipeline: the messages of the pipeline.
pub mod Message

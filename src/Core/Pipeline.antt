-- ===== src/Core/Pipeline.antt =====
-- crates/core/src/pipeline.rs: the phases of a pipeline.
pub data PipelinePhase : Type 0 where
  draft validating snapshotting catching_up running paused degraded failed stopped : PipelinePhase

unfoldable pub PipelinePhase-discrete : Discrete PipelinePhase
PipelinePhase-discrete = hlevel

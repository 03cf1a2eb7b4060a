-- ===== src/Operator.antt =====
-- The Kubernetes operator: operator/api/v1alpha1 and operator/internal/controller.
pub mod Api
pub mod WorkQueue
pub mod Pipelines
pub mod EvalRuns
pub mod VoiceModels
pub mod Composition
pub mod Manager

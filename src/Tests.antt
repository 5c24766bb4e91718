-- ===== src/Tests.antt =====
-- Runs of the definitions at concrete data, and each theorem at an input that meets its hypotheses.
mod Sample
mod CycleRuns
mod StoreRuns
mod WalkRuns
mod TargetRuns
mod JobRuns
mod SetupRuns
mod PlanRuns
mod BuildRuns
mod EnvRuns
mod PathRuns
mod LockRuns
mod BuilderRuns
mod RemoteRuns
mod CacheRuns

-- ===== src/Tests.antt =====
-- Runs of the definitions, and the theorems at concrete inputs.
mod Data
mod VerifyRuns
mod PartRuns
mod LoadRuns
mod SetupRuns
mod EnvRuns
mod LogRuns
mod StepRuns
mod KindParts
mod WholeRuns
mod ComposeSteps
mod CliRuns
mod ComposeRuns

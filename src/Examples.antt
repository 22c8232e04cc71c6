-- ===== src/Examples.antt =====
-- Tests of the definitions, and the theorems at concrete inputs, a module for each component.
mod FsmExamples
mod GovernanceExamples
mod AuthorityExamples
mod StanceExamples
mod RecoveryExamples
mod CommitmentExamples
mod GraphExamples
mod AttestationExamples
mod PerspectiveExamples
mod PlanExamples
mod ArgumentExamples

-- ===== src/Core/Cpu.antt =====
-- src/core/cpu.cpp: the interpreter of one hart.
pub mod State
pub mod Alu
pub mod AluLaws
pub mod Guest
pub mod Fetch
pub mod Execute
pub mod Atomic
pub mod System
pub mod VectorConfig
pub mod Elements
pub mod VectorMemory
pub mod VectorInteger
pub mod Dispatch
pub mod Step
pub mod Precise
pub mod PreciseAccess
pub mod PreciseSystem
pub mod Proceeds
pub mod PreciseVector
pub mod PreciseStep
pub mod TrapFlow
pub mod Returns
pub mod ReturnsSystem
pub mod UnitFree
pub mod Termination
pub mod StepLaws
pub mod StepReturns
pub mod Endings

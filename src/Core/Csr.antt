-- ===== src/Core/Csr.antt =====
-- include/rvemu/core/csr.hpp and src/core/csr.cpp: the control and status registers.
pub mod Names
pub mod State
pub mod Context
pub mod Permission
pub mod ReadValue
pub mod WriteValue
pub mod Access
pub mod Traps
pub mod StatusBits
pub mod TrapLaws
pub mod InterruptLaws
pub mod AccessLaws
pub mod Isolation

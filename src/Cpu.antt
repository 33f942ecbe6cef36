-- ===== src/Cpu.antt =====
-- The control registers of kernel/include/cr.h and the flags register of kernel/include/gpr.h.
pub mod Push
pub mod Interrupt
pub mod Control
pub mod ControlMasks
pub mod ExtensionMasks
pub mod Flags
pub mod FlagMasks
pub mod FlagOps

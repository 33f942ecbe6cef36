-- ===== src/Tests.antt =====
-- The theorems at concrete inputs.
pub mod Text
pub mod Bytes
pub mod Devices
pub mod Tables
pub mod Machine
pub mod Counter
pub mod Boot
pub mod Switch
pub mod Exercise
pub mod Rings
pub mod Flags

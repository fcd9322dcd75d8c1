-- ===== src/Raid.antt =====
-- The RAID layer: kernel/raid.h, kernel/raid.c, kernel/raid_rw.c and kernel/sysraid.c.
pub mod State
pub mod Device
pub mod Striped
pub mod Mirror
pub mod Parity
pub mod Rotating
pub mod System
pub mod Places
pub mod Control
pub mod Api
pub mod Syscall
mod Tests

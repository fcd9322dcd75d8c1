-- ===== src/Raid/Tests.antt =====
-- Small arrays on which the RAID layer runs, and its theorems at them.
mod Parity
mod Mirror
mod Striped
mod Control

-- ===== src/Harness.antt =====
-- sim/qemu/scripts/patch-virt.py: wiring the device into QEMU's sources by text patches.
pub mod Replace
pub mod Patch
pub mod Idempotent
pub mod VirtC
pub mod Again
pub mod Tests

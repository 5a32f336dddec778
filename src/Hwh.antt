-- ===== src/Hwh.antt =====
-- tools/hwh_aximux_dt.py: from the hardware description of a design to device-tree fragments.
pub mod Model
pub mod Ports
pub mod Naming
pub mod Csv
pub mod Xml
pub mod Muxes
pub mod Functions
pub mod Groups
pub mod Emit
pub mod Consumers
pub mod Main
pub mod Load
pub mod Tests

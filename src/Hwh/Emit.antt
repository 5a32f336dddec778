-- ===== src/Hwh/Emit.antt =====
-- `emit_legacy` and `emit_pinctrl2` of tools/hwh_aximux_dt.py: the fragments, line by line.
pub mod Legacy
pub mod Pinctrl2
pub mod Names
pub mod Labels
pub mod Defined
pub mod Wiring
pub mod Total

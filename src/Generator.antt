-- ===== src/Generator.antt =====
-- generator/mux_gen.py: the check of the arguments, the ports of the module, and its routing.
pub mod Arguments
pub mod Ports
pub mod Address
pub mod Routing
pub mod ReadBack
pub mod Sources
pub mod Names
pub mod Tests
pub mod Body
pub mod Program

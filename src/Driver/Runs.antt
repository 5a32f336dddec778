-- ===== src/Driver/Runs.antt =====
-- The calls that the pin control core makes into driver/aximux.c once it is registered, as steps on
-- the registers, in any order and with any arguments.
pub mod Kept
pub mod Always
pub mod Tests
use aximux.Prelude.{ℕ, List, ◌≡◌}
use aximux.Device.{AximuxState}
use aximux.Driver.{AximuxGroup, FunctionGroup, aximux_set_mux}
use aximux.Driver.Conf.{Packing, aximux_pinconf_set, aximux_pinconf_group_set}

-- A call that fails is a step too: it may have changed registers before.
pub data Call (k : Packing) (nalts : ℕ) : AximuxState → AximuxState → Type 0 where
  set_mux :
      (groups : List FunctionGroup) (grp : AximuxGroup) (regs : AximuxState)
      → Call k nalts regs (aximux_set_mux nalts groups grp regs).0
  pinconf_set :
      (pin : ℕ) (configs : List ℕ) (regs : AximuxState)
      → Call k nalts regs (aximux_pinconf_set k pin configs regs).0
  pinconf_group_set :
      (grp : AximuxGroup) (configs : List ℕ) (regs : AximuxState)
      → Call k nalts regs (aximux_pinconf_group_set k grp configs regs).0

pub data Reach (k : Packing) (nalts : ℕ) (start : AximuxState) : AximuxState → Type 0 where
  here : Reach k nalts start start
  next :
      {regs regs' : AximuxState}
      → Reach k nalts start regs
      → Call k nalts regs regs'
      → Reach k nalts start regs'

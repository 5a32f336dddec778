-- ===== src/Driver/Runs/Tests.antt =====
-- A device with 8 pins and 4 alternates: the driver probes without a tree, a select fails after it
-- has programmed a pin, and pins are configured.
use aximux.Prelude.{[], ◌∷◌, ◌≡◌, refl, map, range}
use aximux.Text.{codes}
use aximux.Device.{AximuxState, ready, aximux_realize, aximux_read, muxinfo_reg}
use aximux.Driver.Tests.Design.{device, packing}
use aximux.Driver.{AximuxGroup, aximux_set_mux}
use aximux.Driver.Nodes.{ret, Aximux}
use aximux.Driver.Probe.{aximux_tables, default_pin, default_group}
use aximux.Driver.Conf.{aximux_pinconf_set}
use aximux.Driver.Runs.{Reach, here, next, set_mux, pinconf_set}
use aximux.Driver.Runs.Always.{IsProgrammed, aximux_realize-IsProgrammed}

realized : aximux_realize 8 4 ≡ ready device
unfolding aximux_realize
realized = refl

abbrev plain : Aximux
plain = record {
  nalts = 4;
  pins = map default_pin (range 8);
  groups = map default_group (map default_pin (range 8));
  functions = [];
}

probed : aximux_tables (aximux_read device muxinfo_reg 4) [] ≡ ret plain
unfolding aximux_tables aximux_read
probed = refl

abbrev bus : AximuxGroup
bus = record { name = codes "bus"; pins = 2 ∷ 3 ∷ [] }

abbrev selected : AximuxState
selected =
    (aximux_set_mux 4 (record { name = codes "bus"; mux_vals = 3 ∷ 5 ∷ [] } ∷ []) bus device).0

abbrev configured : AximuxState
configured = (aximux_pinconf_set packing 2 (385 ∷ 5 ∷ []) selected).0

calls : Reach packing 4 device configured
calls =
    next
      (next here (set_mux (record { name = codes "bus"; mux_vals = 3 ∷ 5 ∷ [] } ∷ []) bus device))
      (pinconf_set 2 (385 ∷ 5 ∷ []) selected)

aximux_realize-IsProgrammed_example : IsProgrammed 4 device configured
aximux_realize-IsProgrammed_example =
    aximux_realize-IsProgrammed packing 8 4 device configured [] plain realized probed calls

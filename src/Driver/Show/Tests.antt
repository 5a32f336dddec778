-- ===== src/Driver/Show/Tests.antt =====
-- What sysfs shows of a device with two pins and three alternates, and what it would show of it on a
-- page that is too small.
use aximux.Prelude.{◌+◌, ◌*◌, ◌^◌, [], ◌∷◌, ◌≡◌, refl, arith, map, range, concat_map}
use aximux.Text.{codes}
use aximux.Device.{AximuxState, zeros}
use aximux.Driver.Nodes.{ret, Aximux}
use aximux.Driver.Probe.{aximux_tables, default_pin, default_group, pin_name}
use aximux.Driver.Show.{srcsel_line, show_pins, srcsel_show}
use aximux.Driver.Show.Whole.{srcsel_show_lem}

abbrev device : AximuxState
device = record { srcsel = 0x61 ∷ 0x1af ∷ zeros 30; muxinfo = 3 * 2 ^ 8 + 2; npins = 2; nalts = 3 }

abbrev plain : Aximux
plain = record {
  nalts = 3;
  pins = map default_pin (range 2);
  groups = map default_group (map default_pin (range 2));
  functions = [];
}

probed : aximux_tables 770 [] ≡ ret plain
unfolding aximux_tables
probed = refl

shown_run : srcsel_show 4096 device plain.pins ≡ codes "pin0:0x61\npin1:0xaf\n"
unfolding show_pins pin_name
shown_run = refl

cut_run : srcsel_show 16 device plain.pins ≡ codes "pin0:0x61\npin1:"
unfolding show_pins pin_name
cut_run = refl

srcsel_show_lem_example :
    srcsel_show 4096 device plain.pins ≡ concat_map (srcsel_line device) plain.pins
srcsel_show_lem_example = srcsel_show_lem 4096 770 device [] plain (omega arith) probed

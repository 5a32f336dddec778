-- ===== src/Lib.antt =====
-- Verification of aximux, a signal multiplexer with an AXI register interface.
--
-- The repository generates the multiplexer in Verilog (generator/mux_gen.py), reads the hardware
-- description of a design that has such multiplexers and writes device-tree fragments for them
-- (tools/hwh_aximux_dt.py), and has a Linux pin controller for the registers (driver/aximux.c)
-- with a QEMU harness (sim/qemu). The port names tie generator and tool together: what the
-- generator names, the tool reads back from the hardware description.
--
-- Prelude: tests on numbers, lists, equality, dicts in the order of insertion, sorting.
-- Text: Python's str as lists of code points, decimal numbers, and the fixed regular expressions of
-- the tools as matchers. Texts are taken to be ASCII where \d, int and re.I are used.
-- Hwh: tools/hwh_aximux_dt.py. Hwh/Model has its dicts as records; Hwh/Xml the walks over the
-- element tree (parent_map, ports_of_module, signame_index); Hwh/Ports the pattern PORT_RE;
-- Hwh/Naming is_noise, peer_info, gpio_name, apply_naming and slot_label; Hwh/Muxes parse_muxes;
-- Hwh/Functions fn_for; Hwh/Csv _csv_strings; Hwh/Groups collect_pinctrl2_groups; Hwh/Emit
-- emit_legacy and emit_pinctrl2; Hwh/Consumers emit_consumers; Hwh/Main main, from the parsed
-- document on, with what it writes and prints as a list; Hwh/Load load_hwh, load_naming, and main from
-- the paths on. An exception is none: fn_for raises StopIteration for a pin that is not there, a naming
-- rule re.error, and write_text where a file cannot be written; what was written before stays. Whether
-- the naming rules raise is a function beside apply_naming (naming_raises, groups_raise,
-- consumer_raises), and the emitters return nothing where it says so.
-- Generator: generator/mux_gen.py. Generator/Arguments has the checks of the command line,
-- Generator/Ports the port lists and widths, Generator/Body the module's own signals, the names that its
-- body looks up and the register block with its connections, Generator/Routing the logic of one
-- signal, and Generator/Program the run from the arguments to the module that is printed.
-- Harness: sim/qemu/scripts/patch-virt.py. Harness/Replace has str.replace and the test for a part
-- of a text, Harness/Patch the five patches and main over the texts of the five files.
-- Device: sim/qemu/hw/aximux.c, the registers that the guest reads and writes.
-- Driver: driver/aximux.c over the registers of Device: aximux_set_src and aximux_set_mux. Driver/Nodes
-- has the device tree and the driver's arrays as records and lists, Driver/Probe aximux_probe with what
-- it calls for pins, groups and functions, Driver/Conf the pin configuration, Driver/Show srcsel_show,
-- and Driver/Runs the calls after probing as a step relation on the registers, with what can be
-- reached by them. An errno is a Code, and memory allocation is taken to succeed. A group or a function
-- is given where the code has its number.
--
-- The loop from a port to its enclosing module takes fuel, one round for each element of the
-- document: the elements above a port are fewer than these. Hwh/Xml/Walks has the same ports by a
-- descent without fuel.
-- Parameters: the regular expressions that a naming file brings are matched by a record Regex with
-- the operations search and sub of Python's re and the patterns and replacements that it refuses;
-- json.dumps is a function; what is on disk, which writes succeed, and the libraries that read zip, XML,
-- JSON and YAML, is a record Files; hdltools is a record with clog2, the AXI ports, the ports of its
-- register block and the multiplexer, and the theorems name what they assume of these. For the driver, the
-- packing of a configuration into a number is a record Packing, the size of a page is a number, and
-- what the pin control core's registration returns are two functions.
-- The register block is the list of the calls that the generator makes on it, the renaming of its ports
-- to capitals among them; what hdltools does at these is not in the source.
-- Not modelled: argparse; a naming file whose values have other types than the code expects, such as a
-- list for a dict or a base that is not a number, or is negative; a failing stdout or stderr; the
-- Verilog printer and the other parts of hdltools; the driver's getters and messages; QEMU's own calls;
-- the shell scripts; the test benches.
pub mod Prelude
pub mod Text
pub mod Hwh
pub mod Generator
pub mod Harness
pub mod Device
pub mod Driver

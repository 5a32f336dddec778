-- ===== src/Harness/Tests.antt =====
-- Runs of the patches on small files, and the theorems at them.
use aximux.Prelude.{◌++◌, Option, none, ◌≡◌, refl}
use aximux.Text.{Text, codes, strip_prefix}
use aximux.Harness.Replace.{contains_text, replace_first, replace_from}
use aximux.Harness.Patch.{
  Tree, main, patch_virt_h, patch_virt_c, patch_kconfig_misc, patch_kconfig_arm, patch_meson,
  add_memmap, add_device, add_call, create_fn, needle, anchor, call_anchor, meson_line,
}
use aximux.Harness.Again.{main_again}

abbrev sources : Tree
sources = record {
  virt_h = codes "enum {\n    VIRT_ACPI_PCIHP,\n    VIRT_LOWMEMMAP_LAST,\n};\n";
  virt_c = needle ++ (anchor ++ call_anchor);
  kconfig_misc = codes "config X\n";
  kconfig_arm = codes "config ARM_VIRT\n    bool\n";
  meson_build = meson_line;
}

run : Tree → Tree × Option Text
unfolding main patch_virt_h patch_virt_c patch_kconfig_misc patch_kconfig_arm patch_meson add_memmap
    add_device add_call contains_text replace_first replace_from strip_prefix create_fn
run = main

virt_h_runs :
    (run sources).0.virt_h
    ≡ codes "enum {\n    VIRT_ACPI_PCIHP,\n    VIRT_AXIMUX,\n    VIRT_LOWMEMMAP_LAST,\n};\n"
unfolding run
virt_h_runs = refl

runs_well : (main sources).1 ≡ none
unfolding run
runs_well = refl

main_again_example : main (main sources).0 ≡ ((main sources).0, none)
main_again_example = main_again sources runs_well

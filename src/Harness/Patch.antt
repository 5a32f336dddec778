-- ===== src/Harness/Patch.antt =====
-- The patches of sim/qemu/scripts/patch-virt.py, and their sequence over the files of a source tree.
use aximux.Prelude.{[], ◌∷◌, ◌++◌, Option, none, some, if◌then◌else◌}
use aximux.Text.{Text, codes, join}
use aximux.Harness.Replace.{contains_text, replace_first, replace_all}

abbrev pub marker : Text
marker = codes "/* AXIMUX_QEMU_HARNESS */"

-- The lines of `CREATE_FN`.
unfoldable pub create_fn : Text
unfolding join
create_fn = join (codes "\n") (
    []
    ∷ codes "static void create_aximux(const VirtMachineState *vms)"
    ∷ codes "{"
    ∷ codes "    /* AXIMUX_QEMU_HARNESS */"
    ∷ codes "    MachineState *ms = MACHINE(vms);"
    ∷ codes "    DeviceState *dev = qdev_new(\"aximux\");"
    ∷ codes "    SysBusDevice *s = SYS_BUS_DEVICE(dev);"
    ∷ codes "    hwaddr base = vms->memmap[VIRT_AXIMUX].base;"
    ∷ codes "    hwaddr size = vms->memmap[VIRT_AXIMUX].size;"
    ∷ codes "    char *nodename;"
    ∷ codes "    int i;"
    ∷ []
    ∷ codes "    qdev_prop_set_uint32(dev, \"npins\", 8);"
    ∷ codes "    qdev_prop_set_uint32(dev, \"nalts\", 4);"
    ∷ codes "    sysbus_realize_and_unref(s, &error_fatal);"
    ∷ codes "    sysbus_mmio_map(s, 0, base);"
    ∷ []
    ∷ codes "    nodename = g_strdup_printf(\"/pinctrl@%\" PRIx64, base);"
    ∷ codes "    qemu_fdt_add_subnode(ms->fdt, nodename);"
    ∷ codes "    qemu_fdt_setprop_string(ms->fdt, nodename, \"compatible\","
    ∷ codes "                            \"brunosmmm,aximux-2.0\");"
    ∷ codes "    qemu_fdt_setprop_sized_cells(ms->fdt, nodename, \"reg\", 2, base, 2, size);"
    ∷ []
    ∷ codes "    for (i = 0; i < 4; i++) {"
    ∷ codes "        char *pin = g_strdup_printf(\"%s/pin@%d\", nodename, i);"
    ∷ codes "        char *fns[] = { (char *)\"alt0\", (char *)\"alt1\","
    ∷ codes "                        (char *)\"alt2\", (char *)\"alt3\" };"
    ∷ codes "        qemu_fdt_add_subnode(ms->fdt, pin);"
    ∷ codes "        qemu_fdt_setprop_cell(ms->fdt, pin, \"reg\", i);"
    ∷ codes "        qemu_fdt_setprop_string_array(ms->fdt, pin, \"function-names\", fns, 4);"
    ∷ codes "        g_free(pin);"
    ∷ codes "    }"
    ∷ codes "    g_free(nodename);"
    ∷ codes "}"
    ∷ []
    ∷ []
    ∷ [])

-- What a patch does to its file: it leaves it alone, writes it, or ends the script by `SystemExit`.
pub data Patched : Type 0 where
  kept : Patched
  wrote : Text → Patched
  failed : Text → Patched

-- The file's text after the patch.
abbrev pub text_after : Text → Patched → Text
text_after old kept = old
text_after old (wrote new) = new
text_after old (failed message) = old

abbrev pub virt_aximux : Text
virt_aximux = codes "VIRT_AXIMUX"

unfoldable pub patch_virt_h : Text → Patched
patch_virt_h text =
    if contains_text virt_aximux text
    then kept
    else (let new =
          replace_all (codes "    VIRT_ACPI_PCIHP,\n    VIRT_LOWMEMMAP_LAST,")
            (codes "    VIRT_ACPI_PCIHP,\n    VIRT_AXIMUX,\n    VIRT_LOWMEMMAP_LAST,") text in
        if contains_text virt_aximux new
        then wrote new
        else failed (codes "failed to insert VIRT_AXIMUX into virt.h"))

abbrev pub memmap_entry : Text
memmap_entry = codes "[VIRT_AXIMUX]"

abbrev pub needle : Text
needle = codes "    [VIRT_ACPI_PCIHP] =         { 0x090c0000, ACPI_PCIHP_SIZE },\n"

abbrev pub memmap_line : Text
memmap_line = codes "    [VIRT_AXIMUX] =             { 0x090d0000, 0x00001000 },\n"

abbrev pub anchor : Text
anchor = codes "static void create_gpio_devices(const VirtMachineState *vms, int gpio,\n"

abbrev pub call_anchor : Text
call_anchor = codes "    create_virtio_devices(vms);\n"

abbrev pub call_line : Text
call_line = codes "    create_aximux(vms);\n"

-- A text, or the message of `SystemExit`.
pub data Step : Type 0 where
  done : Text → Step
  exit : Text → Step

-- The first block of `patch_virt_c`: the entry of the memory map.
unfoldable pub add_memmap : Text → Step
add_memmap text =
    if contains_text memmap_entry text
    then done text
    else if contains_text needle text
    then done (replace_first needle (needle ++ memmap_line) text)
    else exit (codes "memmap ACPI_PCIHP entry not found")

-- The call, in front of that of `create_virtio_devices`.
unfoldable pub add_call : Text → Step
add_call text =
    if contains_text call_anchor text
    then done (replace_first call_anchor (call_line ++ call_anchor) text)
    else exit (codes "create_virtio_devices call not found")

-- The second block: the function and its call.
unfoldable pub add_device : Text → Step
unfolding add_call
add_device text =
    if contains_text marker text
    then done text
    else if contains_text anchor text
    then add_call (replace_first anchor (create_fn ++ anchor) text)
    else exit (codes "create_gpio_devices not found")

abbrev pub and_then : Step → (Text → Step) → Step
and_then (done t) f = f t
and_then (exit m) f = exit m

abbrev pub written : Step → Patched
written (done t) = wrote t
written (exit m) = failed m

unfoldable pub patch_virt_c : Text → Patched
unfolding add_memmap add_device
patch_virt_c text = written (and_then (add_memmap text) add_device)

unfoldable pub patch_kconfig_misc : Text → Patched
patch_kconfig_misc text =
    if contains_text (codes "config AXIMUX") text
    then kept
    else wrote (text ++ codes "\nconfig AXIMUX\n    bool\n")

abbrev pub select_aximux : Text
select_aximux = codes "select AXIMUX"

unfoldable pub patch_kconfig_arm : Text → Patched
patch_kconfig_arm text =
    if contains_text select_aximux text
    then kept
    else (let new =
          replace_first (codes "config ARM_VIRT\n    bool\n")
            (codes "config ARM_VIRT\n    bool\n    select AXIMUX\n") text in
        if contains_text select_aximux new
        then wrote new
        else failed (codes "failed to select AXIMUX from ARM_VIRT"))

abbrev pub aximux_file : Text
aximux_file = codes "aximux.c"

abbrev pub meson_line : Text
meson_line = codes "system_ss.add(when: 'CONFIG_VIRT_CTRL', if_true: files('virt_ctrl.c'))\n"

abbrev pub meson_new : Text
meson_new = codes "system_ss.add(when: 'CONFIG_AXIMUX', if_true: files('aximux.c'))\n"

unfoldable pub patch_meson : Text → Patched
patch_meson text =
    if contains_text aximux_file text
    then kept
    else (let new = replace_first meson_line (meson_line ++ meson_new) text in
        if contains_text aximux_file new
        then wrote new
        else failed (codes "failed to add aximux.c to meson.build"))

-- The five files that `main` patches.
pub record Tree : Type 0 where
  pub virt_h : Text
  pub virt_c : Text
  pub kconfig_misc : Text
  pub kconfig_arm : Text
  pub meson_build : Text

-- The message with which the script ends early, if it does.
abbrev pub message : Patched → Option Text
message kept = none
message (wrote t) = none
message (failed m) = some m

-- One patch after those before it: after a failure nothing more is done.
abbrev pub patch_file :
    (Tree → Text)
    → (Tree → Text → Tree)
    → (Text → Patched)
    → Tree × Option Text
    → Tree × Option Text
patch_file file put patch (t, some m) = (t, some m)
patch_file file put patch (t, none) =
    let p = patch (file t) in (put t (text_after (file t) p), message p)

unfoldable pub main : Tree → Tree × Option Text
unfolding patch_virt_h patch_virt_c patch_kconfig_misc patch_kconfig_arm patch_meson
main t =
    patch_file (λ t. t.meson_build) (λ t x. record t { meson_build = x }) patch_meson
      (patch_file (λ t. t.kconfig_arm) (λ t x. record t { kconfig_arm = x }) patch_kconfig_arm
        (patch_file (λ t. t.kconfig_misc) (λ t x. record t { kconfig_misc = x }) patch_kconfig_misc
          (patch_file (λ t. t.virt_c) (λ t x. record t { virt_c = x }) patch_virt_c
            (patch_file (λ t. t.virt_h) (λ t x. record t { virt_h = x }) patch_virt_h (t, none)))))

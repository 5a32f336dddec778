-- ===== src/Harness/Idempotent.antt =====
-- Running the patches again changes nothing: the promise at the head of patch-virt.py.
use aximux.Prelude.{◌++◌, none, Bool, true, false, if◌then◌else◌, ◌≡◌, refl, ◌∙◌, ap}
use aximux.Text.{Text, codes, strip_prefix}
use aximux.Harness.Replace.{contains_text, replace_first, replace_all, contains-append_right}
use aximux.Harness.Patch.{
  Patched, kept, wrote, failed, text_after, message, patch_virt_h, patch_kconfig_misc,
  patch_kconfig_arm, patch_meson, virt_aximux, select_aximux, aximux_file, meson_line, meson_new,
}

-- A patch that ended well does nothing more to the text that it left.
abbrev pub IsStable : (Text → Patched) → Text → Type 0
IsStable patch t =
    let t' = text_after t (patch t) in (message (patch t') ≡ none) × (text_after t' (patch t') ≡ t')

module _ (patch : Text → Patched) (has : Text → Bool) where
  -- A text that passes the first test is left alone.
  IsStable-of :
      ((t : Text) → has t ≡ true → patch t ≡ kept)
      → (t : Text) → has (text_after t (patch t)) ≡ true
      → IsStable patch t
  IsStable-of keeps t h =
      let e = keeps (text_after t (patch t)) h in
      (ap message e, ap (text_after (text_after t (patch t))) e)

  tested_after :
      (t new : Text) (m : Text) (b c : Bool)
      → has t ≡ b
      → has new ≡ c
      → message (if b then kept else if c then wrote new else failed m) ≡ none
      → has (text_after t (if b then kept else if c then wrote new else failed m)) ≡ true
  tested_after t new m true c hb hc g = hb
  tested_after t new m false true hb hc g = hc
  tested_after t new m false false hb hc g = cc

  -- A patch that tests the text before and after its change.
  tested_lem :
      (make : Text → Text) (m : Text)
      → ((t : Text)
          → patch t ≡ (if has t then kept else if has (make t) then wrote (make t) else failed m))
      → (t : Text) → message (patch t) ≡ none
      → IsStable patch t
  tested_lem make m eq t good =
      IsStable-of (λ u h. eq u ∙ rw h) t
        (rw (eq t) (tested_after t (make t) m (has t) (has (make t)) refl refl (rw (eq t) at good)))

  appended_after :
      (t new : Text) (b : Bool)
      → has t ≡ b
      → has new ≡ true
      → has (text_after t (if b then kept else wrote new)) ≡ true
  appended_after t new true hb hc = hb
  appended_after t new false hb hc = hc

pub patch_virt_h-IsStable : (t : Text) → message (patch_virt_h t) ≡ none → IsStable patch_virt_h t
patch_virt_h-IsStable t =
    tested_lem patch_virt_h (contains_text virt_aximux)
      (replace_all (codes "    VIRT_ACPI_PCIHP,\n    VIRT_LOWMEMMAP_LAST,")
        (codes "    VIRT_ACPI_PCIHP,\n    VIRT_AXIMUX,\n    VIRT_LOWMEMMAP_LAST,"))
      (codes "failed to insert VIRT_AXIMUX into virt.h") (unfold patch_virt_h in λ t. refl) t

pub patch_kconfig_arm-IsStable :
    (t : Text) → message (patch_kconfig_arm t) ≡ none → IsStable patch_kconfig_arm t
patch_kconfig_arm-IsStable t =
    tested_lem patch_kconfig_arm (contains_text select_aximux)
      (replace_first (codes "config ARM_VIRT\n    bool\n")
        (codes "config ARM_VIRT\n    bool\n    select AXIMUX\n"))
      (codes "failed to select AXIMUX from ARM_VIRT") (unfold patch_kconfig_arm in λ t. refl) t

pub patch_meson-IsStable : (t : Text) → message (patch_meson t) ≡ none → IsStable patch_meson t
patch_meson-IsStable t =
    tested_lem patch_meson (contains_text aximux_file)
      (replace_first meson_line (meson_line ++ meson_new))
      (codes "failed to add aximux.c to meson.build") (unfold patch_meson in λ t. refl) t

pub patch_kconfig_misc-IsStable : (t : Text) → IsStable patch_kconfig_misc t
patch_kconfig_misc-IsStable t =
    IsStable-of patch_kconfig_misc (contains_text config) (λ u h. eq u ∙ rw h) t
      (rw (eq t) (
        appended_after patch_kconfig_misc (contains_text config) t (t ++ suffix)
          (contains_text config t) refl
          (contains-append_right config t suffix (unfold contains_text strip_prefix in refl))))
  where
    config : Text
    config = codes "config AXIMUX"

    suffix : Text
    suffix = codes "\nconfig AXIMUX\n    bool\n"

    eq :
        (u : Text)
        → patch_kconfig_misc u ≡ (if contains_text config u then kept else wrote (u ++ suffix))
    eq u = unfold patch_kconfig_misc in refl

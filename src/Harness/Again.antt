-- ===== src/Harness/Again.antt =====
-- The whole script run twice.
use aximux.Prelude.{Option, none, some, ◌≡◌, refl, ◌∙◌, ap}
use aximux.Text.{Text}
use aximux.Harness.Patch.{
  text_after, message, Tree, main, patch_file, patch_virt_h, patch_virt_c, patch_kconfig_misc,
  patch_kconfig_arm, patch_meson,
}
use aximux.Harness.Idempotent.{
  IsStable, patch_virt_h-IsStable, patch_kconfig_arm-IsStable, patch_meson-IsStable,
  patch_kconfig_misc-IsStable,
}
use aximux.Harness.VirtC.{patch_virt_c_again}

patch_virt_c-IsStable : (t : Text) → message (patch_virt_c t) ≡ none → IsStable patch_virt_c t
patch_virt_c-IsStable t g =
    let e = patch_virt_c_again t g in
    let t' = text_after t (patch_virt_c t) in (ap message e, ap (text_after t') e)

abbrev State : Type 0
State = Tree × Option Text

abbrev on_virt_h : State → State
on_virt_h = patch_file (λ t. t.virt_h) (λ t x. record t { virt_h = x }) patch_virt_h

abbrev on_virt_c : State → State
on_virt_c = patch_file (λ t. t.virt_c) (λ t x. record t { virt_c = x }) patch_virt_c

abbrev on_misc : State → State
on_misc = patch_file (λ t. t.kconfig_misc) (λ t x. record t { kconfig_misc = x }) patch_kconfig_misc

abbrev on_arm : State → State
on_arm = patch_file (λ t. t.kconfig_arm) (λ t x. record t { kconfig_arm = x }) patch_kconfig_arm

abbrev on_meson : State → State
on_meson = patch_file (λ t. t.meson_build) (λ t x. record t { meson_build = x }) patch_meson

main_lem : (t : Tree) → main t ≡ on_meson (on_arm (on_misc (on_virt_c (on_virt_h (t, none)))))
unfolding main
main_lem t = refl

-- Every patch of the five ends well on its own file.
record IsFine (t : Tree) : Type 0 where
  virt_h_fine : message (patch_virt_h t.virt_h) ≡ none
  virt_c_fine : message (patch_virt_c t.virt_c) ≡ none
  misc_fine : message (patch_kconfig_misc t.kconfig_misc) ≡ none
  arm_fine : message (patch_kconfig_arm t.kconfig_arm) ≡ none
  meson_fine : message (patch_meson t.meson_build) ≡ none

abbrev all_patched : Tree → Tree
all_patched t = record {
  virt_h = text_after t.virt_h (patch_virt_h t.virt_h);
  virt_c = text_after t.virt_c (patch_virt_c t.virt_c);
  kconfig_misc = text_after t.kconfig_misc (patch_kconfig_misc t.kconfig_misc);
  kconfig_arm = text_after t.kconfig_arm (patch_kconfig_arm t.kconfig_arm);
  meson_build = text_after t.meson_build (patch_meson t.meson_build);
}

main_fine : (t : Tree) → IsFine t → main t ≡ (all_patched t, none)
main_fine t f = rw (main_lem t, f.virt_h_fine, f.virt_c_fine, f.misc_fine, f.arm_fine, f.meson_fine)

-- A failure is never lost.
fine_of :
    (o : Option Text) (rest : Option Text → Option Text)
    → ((m : Text) → rest (some m) ≡ some m)
    → rest o ≡ none
    → o ≡ none
fine_of none rest s h = refl
fine_of (some m) rest s h = cc (s m)

IsFine-of_main : (t : Tree) → (main t).1 ≡ none → IsFine t
IsFine-of_main t h = record {
  virt_h_fine = g1;
  virt_c_fine = g2;
  misc_fine = g3;
  arm_fine = g4;
  meson_fine = h5;
}
  where
    t1 : Tree
    t1 = record t { virt_h = text_after t.virt_h (patch_virt_h t.virt_h) }

    t2 : Tree
    t2 = record t1 { virt_c = text_after t.virt_c (patch_virt_c t.virt_c) }

    t3 : Tree
    t3 = record t2 { kconfig_misc = text_after t.kconfig_misc (patch_kconfig_misc t.kconfig_misc) }

    t4 : Tree
    t4 = record t3 { kconfig_arm = text_after t.kconfig_arm (patch_kconfig_arm t.kconfig_arm) }

    h1 : (on_meson (on_arm (on_misc (on_virt_c (t1, message (patch_virt_h t.virt_h)))))).1 ≡ none
    h1 = rw (main_lem t) at h

    g1 : message (patch_virt_h t.virt_h) ≡ none
    g1 = fine_of _ (λ o. (on_meson (on_arm (on_misc (on_virt_c (t1, o))))).1) (λ m. refl) h1

    h2 : (on_meson (on_arm (on_misc (t2, message (patch_virt_c t.virt_c))))).1 ≡ none
    h2 = rw g1 at h1

    g2 : message (patch_virt_c t.virt_c) ≡ none
    g2 = fine_of _ (λ o. (on_meson (on_arm (on_misc (t2, o)))).1) (λ m. refl) h2

    h3 : (on_meson (on_arm (t3, message (patch_kconfig_misc t.kconfig_misc)))).1 ≡ none
    h3 = rw g2 at h2

    g3 : message (patch_kconfig_misc t.kconfig_misc) ≡ none
    g3 = fine_of _ (λ o. (on_meson (on_arm (t3, o))).1) (λ m. refl) h3

    h4 : (on_meson (t4, message (patch_kconfig_arm t.kconfig_arm))).1 ≡ none
    h4 = rw g3 at h3

    g4 : message (patch_kconfig_arm t.kconfig_arm) ≡ none
    g4 = fine_of _ (λ o. (on_meson (t4, o)).1) (λ m. refl) h4

    h5 : message (patch_meson t.meson_build) ≡ none
    h5 = rw g4 at h4

-- Where the script ends well, a second run ends well too and leaves every file as it is.
pub main_again : (t : Tree) → (main t).1 ≡ none → main (main t).0 ≡ ((main t).0, none)
main_again t h =
    let f = IsFine-of_main t h in rw (main_fine t f) (main_fine (all_patched t) (again f) ∙ same f)
  where
    again : IsFine t → IsFine (all_patched t)
    again f = record {
      virt_h_fine = (patch_virt_h-IsStable t.virt_h f.virt_h_fine).0;
      virt_c_fine = (patch_virt_c-IsStable t.virt_c f.virt_c_fine).0;
      misc_fine = (patch_kconfig_misc-IsStable t.kconfig_misc).0;
      arm_fine = (patch_kconfig_arm-IsStable t.kconfig_arm f.arm_fine).0;
      meson_fine = (patch_meson-IsStable t.meson_build f.meson_fine).0;
    }

    same :
        (f : IsFine t)
        → ◌≡◌ {A = Tree × Option Text} (all_patched (all_patched t), none) (all_patched t, none)
    same f = λ i. (
      record {
        virt_h = (patch_virt_h-IsStable t.virt_h f.virt_h_fine).1 i;
        virt_c = (patch_virt_c-IsStable t.virt_c f.virt_c_fine).1 i;
        kconfig_misc = (patch_kconfig_misc-IsStable t.kconfig_misc).1 i;
        kconfig_arm = (patch_kconfig_arm-IsStable t.kconfig_arm f.arm_fine).1 i;
        meson_build = (patch_meson-IsStable t.meson_build f.meson_fine).1 i;
      },
      none,
    )

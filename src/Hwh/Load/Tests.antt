-- ===== src/Hwh/Load/Tests.antt =====
-- An archive with three descriptions of hardware, and one without any.
use aximux.Prelude.{List, [], ◌∷◌, none, some, true, false, ◌≡◌, refl, text_eq}
use aximux.Text.{Text, codes, strip_prefix, has_char}
use aximux.Hwh.Tests.Design.{design, no_regex, plain}
use aximux.Hwh.Main.{Args, legacy}
use aximux.Hwh.Load.{
  Files, missing, suffix, hwh_members, is_archive, load_naming, main_from_paths, exited,
}
use aximux.Hwh.Load.Chosen.{Reads, load_hwh_lem}
use aximux.Hwh.Load.Outcome.{Ends, main_from_paths-Ends}

abbrev members : List Text
members = codes "b.hwh" ∷ codes "xsa.xml" ∷ codes "sub/system.hwh" ∷ codes "A.HWH" ∷ []

abbrev disk : Files
disk = record {
  is_zipfile = λ p. false;
  namelist = λ p. some members;
  read_member = λ p n. some design;
  parse = λ p. some design;
  read_text = λ p. some (codes "{}");
  json_loads = λ t. some plain;
  yaml = missing (codes "No module named 'yaml'");
  can_write = λ p t. true;
}

suffix_run : suffix (codes "out.d/firmware.v2.xsa") ≡ codes ".xsa"
unfolding suffix has_char
suffix_run = refl

hidden_run : suffix (codes "out.d/.xsa") ≡ []
unfolding suffix has_char
hidden_run = refl

members_run : hwh_members members ≡ codes "sub/system.hwh" ∷ codes "A.HWH" ∷ codes "b.hwh" ∷ []
unfolding hwh_members strip_prefix
members_run = refl

archive : is_archive disk (codes "firmware.XSA") ≡ true
unfolding suffix text_eq
archive = refl

yaml_run :
    load_naming disk (some (codes "n.yaml"))
    ≡ exited
        (codes "PyYAML needed for n.yaml; use .json or install pyyaml (No module named 'yaml')")
unfolding load_naming has_char
yaml_run = refl

load_hwh_lem_example : Reads disk (codes "firmware.XSA") members
load_hwh_lem_example = load_hwh_lem disk (codes "firmware.XSA") members archive refl

abbrev args : Args
args = record {
  output = some (codes "out.dtsi");
  style = legacy;
  consumers = none;
  dump_json = none;
}

main_from_paths-Ends_example :
    Ends disk none
      (codes "firmware.XSA")
      args
      (main_from_paths disk no_regex (λ ms. codes "[]") none (codes "firmware.XSA") args)
main_from_paths-Ends_example =
    main_from_paths-Ends disk no_regex (λ ms. codes "[]") none (codes "firmware.XSA") args

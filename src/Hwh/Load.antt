-- ===== src/Hwh/Load.antt =====
-- `load_hwh` and `load_naming` of tools/hwh_aximux_dt.py, and `main` from the paths on. The files,
-- and the libraries that read zip, XML, JSON and YAML, are a parameter.
pub mod Chosen
pub mod Outcome
pub mod Tests
use aximux.Prelude.{
  ℕ, List, [], ◌∷◌, ◌++◌, Option, none, some, Bool, true, false, ◌||◌, ◌==◌, if◌then◌else◌, length,
  select, same, text_eq,
}
use aximux.Prelude.Sort.{sort_by}
use aximux.Text.{Text, codes, ends_with, text_le, lower, has_char}
use aximux.Hwh.Model.{Mux, Naming}
use aximux.Hwh.Naming.{Regex}
use aximux.Hwh.Xml.{Element}
use aximux.Hwh.Main
use aximux.Hwh.Main.{Args, Effect, message}

-- PyYAML: not installed, with the text of the ImportError, or its `safe_load`. That yields no naming
-- where it raises, and `none` inside for a document that is empty.
pub data Yaml : Type 0 where
  missing : Text → Yaml
  installed : (Text → Option (Option Naming)) → Yaml

-- What is read, by path, where `none` is an exception, and a naming has values of the types that the
-- code expects; and whether `write_text` succeeds at a path with
-- a text.
pub record Files : Type 0 where
  pub is_zipfile : Text → Bool
  pub namelist : Text → Option (List Text)
  pub read_member : Text → Text → Option Element
  pub parse : Text → Option Element
  pub read_text : Text → Option Text
  pub json_loads : Text → Option Naming
  pub yaml : Yaml
  pub can_write : Text → Text → Bool

-- What is loaded, `SystemExit` with its message, or another exception.
pub data Loaded {ℓ} (A : Type ℓ) : Type ℓ where
  loaded : A → Loaded A
  exited : Text → Loaded A
  raised : Loaded A

abbrev pub of_option {ℓ} : {A : Type ℓ} → Option A → Loaded A
of_option none = raised
of_option (some a) = loaded a

-- From the last `.` of a text on.
unfoldable pub last_dot : Text → Option Text
last_dot [] = none
last_dot (c ∷ t) = elim (last_dot t) [
  | some s ↦ some s
  | none ↦ if c == b'.' then some (c ∷ t) else none
]

-- What stands behind the last `/`.
unfoldable pub file_name : Text → Text
unfolding has_char
file_name [] = []
file_name (c ∷ t) = let rest = file_name t in if has_char b'/' (c ∷ t) then rest else c ∷ t

-- `path.suffix`, of a path that does not end in `/`: neither a dot in front nor one at the end begins
-- a suffix.
unfoldable pub suffix : Text → Text
unfolding file_name last_dot
suffix path = elim (file_name path) [
  | [] ↦ []
  | c ∷ t ↦ elim (last_dot t) [ none ↦ [] | some s ↦ if length s == 1 then [] else s ]
]

-- `n.lower().endswith(".hwh")`
unfoldable pub is_hwh : Text → Bool
unfolding ends_with
is_hwh n = ends_with (codes ".hwh") (lower n)

unfoldable pub is_system : Text → Bool
unfolding ends_with
is_system n = ends_with (codes "system.hwh") n

-- The order of the keys `(0 if n.endswith("system.hwh") else 1, n)`.
abbrev pub key_le : Bool → Bool → Bool → Bool
key_le s t le = if s then (if t then le else true) else if t then false else le

unfoldable pub member_le : Text → Text → Bool
unfolding is_system text_le
member_le a b = key_le (is_system a) (is_system b) (text_le a b)

unfoldable pub hwh_members : List Text → List Text
unfolding is_hwh member_le sort_by
hwh_members names = sort_by member_le (select is_hwh names)

-- A naming with nothing in it but a prefix.
abbrev pub empty_naming : Option Text → Naming
empty_naming prefix = record {
  gpio_prefix = prefix;
  gpio_bases = [];
  overrides = [];
  rules = [];
  consumer_labels = [];
  group_aliases = [];
  skip_consumers = [];
}

module _ (fs : Files) where
  abbrev pub load_member : Text → List Text → Loaded Element
  load_member path [] = exited (codes "no .hwh inside " ++ path)
  load_member path (n ∷ ns) = of_option (fs.read_member path n)

  abbrev pub is_archive : Text → Bool
  is_archive path = same (lower (suffix path)) (codes ".xsa") || fs.is_zipfile path

  unfoldable pub load_hwh : Text → Loaded Element
  unfolding suffix hwh_members text_eq
  load_hwh path =
      if is_archive path
      then elim (fs.namelist path) [
        | none ↦ raised
        | some names ↦ load_member path (hwh_members names)
      ]
      else of_option (fs.parse path)

  abbrev load_yaml : Text → Text → Yaml → Loaded Naming
  load_yaml path text (missing exc) = exited (
      codes "PyYAML needed for "
      ++ (path ++ (codes "; use .json or install pyyaml (" ++ (exc ++ codes ")"))))
  load_yaml path text (installed safe_load) = elim (safe_load text) [
    | none ↦ raised
    | some none ↦ loaded (empty_naming none)
    | some (some naming) ↦ loaded naming
  ]

  unfoldable pub load_naming : Option Text → Loaded Naming
  unfolding suffix text_eq
  load_naming none = loaded (empty_naming (some (codes "gpio0")))
  load_naming (some path) = elim (fs.read_text path) [
    | none ↦ raised
    | some text ↦
        if same (suffix path) (codes ".json")
        then of_option (fs.json_loads text)
        else load_yaml path text fs.yaml
  ]

  -- The message of a `SystemExit` goes to stderr, with exit code 1.
  abbrev pub stopped : Text → List Effect × Option ℕ
  stopped t = (message t ∷ [], some 1)

  -- `main` from the two paths on: the naming is loaded first.
  unfoldable pub main_from_paths :
      Regex → (List Mux → Text) → Option Text → Text → Args → List Effect × Option ℕ
  unfolding load_naming load_hwh Main.main
  main_from_paths re dumps naming_path path args = elim (load_naming naming_path) [
    | exited t ↦ stopped t
    | raised ↦ ([], none)
    | loaded naming ↦ elim (load_hwh path) [
      | exited t ↦ stopped t
      | raised ↦ ([], none)
      | loaded root ↦ Main.main re dumps fs.can_write args naming root
    ]
  ]
